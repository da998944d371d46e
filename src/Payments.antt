-- ===== src/Payments.antt =====
-- The payments of a buyer: apps/api/src/payments.ts (settlePayment), ensurePayments of
-- apps/api/src/routers/portal.ts, and what deleteUnit of apps/api/src/routers/sales.ts does to them.
mod Rows
pub mod Receipts
pub mod Kept
pub mod Visits
mod Tests
unfoldable pub use Rows.*
