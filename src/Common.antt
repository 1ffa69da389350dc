-- ===== src/Common.antt =====
-- common: what the server and its clients share.
pub mod Identity
pub mod Password
