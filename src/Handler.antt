-- ===== src/Handler.antt =====
-- internal/handler: the HTTP handlers, over the services. What BindAndValidate makes of a request is
-- hertz's: a handler is given the bound request, `none` where that failed. The user is GetUserId's.
pub mod Message
pub mod Conversation
pub mod Group
pub mod User
pub mod Auth
