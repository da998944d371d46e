-- ===== src/Auth/Throttle.antt =====
-- apps/api/src/auth/password.ts: the AuthThrottle table, which holds the login lockout and the
-- throttle of password resets. Times are milliseconds since the epoch. `stamp` is the time that
-- Prisma writes to `updatedAt`, taken by its own clock when a query runs.
pub mod Row
pub mod Lockout
pub mod Resets
pub mod Pruning
