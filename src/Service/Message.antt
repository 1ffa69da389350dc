-- ===== src/Service/Message.antt =====
-- internal/service/message_service.go
pub mod Content
pub mod Access
pub mod Single
pub mod Group
pub mod Resend
pub mod Pull
