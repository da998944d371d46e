-- ===== src/Reports.antt =====
-- apps/api/src/report-capacity.ts: the slots of report rendering.
pub mod Slots
pub mod Capacity
mod Tests
