-- ===== src/Versions.antt =====
-- The versions of an appraisal: apps/api/src/routers/appraisal.ts (save, submitForReview, review,
-- restore, draftNarrative, applyToAppraisal), apps/api/src/current-appraisal.ts,
-- apps/api/src/optimistic.ts and apps/api/src/approval-pin.ts.
pub mod Pin
pub mod Row
pub mod Requests
pub mod History
pub mod Later
pub mod Sound
pub mod Reads
pub mod Writes
pub mod Steps
pub mod Runs
pub mod Guarantees
pub mod Approval
pub mod Overwrites
pub mod Retry
pub mod Portfolio
mod Tests
