-- ===== src/Entity.antt =====
-- internal/entity: the rows of the tables, and what the code computes on them.
pub mod Message
pub mod ConversationId
pub mod Seq
pub mod Group
pub mod GroupMember
pub mod Conversation
pub mod User
