-- ===== src/Versions/Requests.antt =====
-- apps/api/src/routers/appraisal.ts: `save`, `submitForReview`, `review` and `restore`, with
-- `assertUnchanged` of apps/api/src/optimistic.ts. A handler reads the table, decides, and writes in
-- one statement or transaction: `seen` is the table as it was read, `w` the one that the write meets.
pub mod Shared
pub mod Saving
pub mod Reviewing
pub mod Restoring
unfoldable pub use Shared.*
unfoldable pub use Saving.*
unfoldable pub use Reviewing.*
unfoldable pub use Restoring.*
