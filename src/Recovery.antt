-- ===== src/Recovery.antt =====
-- The codes that open a workspace whose identity provider is down: apps/api/src/auth/sso-recovery.ts.
pub mod Codes
pub mod Printing
pub mod Issue
mod Tests
