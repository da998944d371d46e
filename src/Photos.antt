-- ===== src/Photos.antt =====
-- The offline queue of site photographs: apps/web/src/lib/photo-queue.ts and photo-drain.ts over the store of
-- photo-store.ts.
mod Queue
mod Drain
pub mod Due
pub mod Kept
mod Tests
unfoldable pub use Queue.*
unfoldable pub use Drain.*
