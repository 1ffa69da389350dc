-- ===== src/Repository.antt =====
-- internal/repository: the queries of the program, one module for each repository.
pub mod Setup
pub mod Statement
pub mod Seq
pub mod Message
pub mod Group
pub mod Conversation
pub mod User
pub mod Outcomes
