-- ===== src/Sdk.antt =====
-- sdk: the client library for other programs.
pub mod Types
pub mod Codecs
pub mod Client
pub mod Endpoints
pub mod Auth
pub mod User
pub mod Group
pub mod Message
pub mod Conversation
pub mod Actors
