-- ===== src/Webhooks/Claims.antt =====
-- apps/api/src/webhook-delivery.ts: what any interleaving of the queries of several workers does to
-- one delivery. An action is one query, which the database runs atomically.
pub mod Rows
pub mod Exclusive
pub mod Attempts
pub mod Schedule
