-- ===== src/Gateway.antt =====
-- internal/gateway: the WebSocket server.
pub mod UserMap
pub mod Hub
pub mod Push
pub mod AppPush
pub mod Conn
pub mod Wire
pub mod Handlers
pub mod Client
pub mod Status
pub mod Connect
pub mod Serving
