-- ===== src/Auth.antt =====
-- The API's account controls (apps/api/src/auth).
pub mod Throttle
mod Tests
