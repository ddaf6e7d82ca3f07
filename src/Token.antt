-- ===== src/Token.antt =====
-- app/services/refresh_token_service.py: the refresh tokens of users.
pub mod Tokens
pub mod Revocation
mod Tests
