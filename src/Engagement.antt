-- ===== src/Engagement.antt =====
-- The terms of engagement of a deal, apps/api/src/routers/engagement.ts: their row and the handlers.
mod Shared
mod Drafting
mod Signing
pub mod Schedule
pub mod Sound
pub mod Interleavings
pub mod Kept
pub mod Links
pub mod Races
mod Tests
unfoldable pub use Shared.*
unfoldable pub use Drafting.*
unfoldable pub use Signing.*
