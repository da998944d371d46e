-- ===== src/Plans.antt =====
-- Plans: what a workspace's plan switches on, and what a lapsed trial may still do.
pub mod Catalogue
pub mod Entitlements
pub mod Trial
pub mod Guards
mod Tests
