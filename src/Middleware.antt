-- ===== src/Middleware.antt =====
-- internal/middleware
pub mod InternalAuth
pub mod Auth
pub mod TraceId
pub mod Logger
pub mod Cors
