-- ===== src/Packs.antt =====
-- The sheets of a funding pack: apps/web/src/lib/pack-pagination.ts.
pub mod Sheets
pub mod Placement
pub mod Fitting
pub mod Heights
mod Tests
