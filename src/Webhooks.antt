-- ===== src/Webhooks.antt =====
-- apps/api/src/webhook-delivery.ts: outbound webhooks. `Delivery` has the tables and the queries,
-- `Drain` the worker's loop, and the other modules what follows of them.
pub mod Delivery
pub mod Drain
pub mod Claims
pub mod Parking
pub mod Draining
mod Tests
