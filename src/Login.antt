-- ===== src/Login.antt =====
-- app/routes/device_auth.py: how a device gets its tokens, over the services of device codes and of
-- refresh tokens.
pub mod Endpoints
pub mod Lookups
pub mod Exchange
pub mod Grants
pub mod Tests
