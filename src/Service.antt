-- ===== src/Service.antt =====
-- internal/service: the business logic over the repositories.
pub mod Message
pub mod Group
pub mod History
pub mod Conversation
pub mod Auth
pub mod User
