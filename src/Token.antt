-- ===== src/Token.antt =====
-- pkg/jwt: the tokens that Redis keeps.
pub mod Store
pub mod Jwt
