-- ===== src/Engine.antt =====
-- packages/appraisal-engine/src: the calculation engine, over any type of numbers.
pub mod Number
pub mod Types
pub mod Spend
pub mod Duty
pub mod Income
pub mod Phases
pub mod Series
pub mod Facility
pub mod Scheme
pub mod Irr
pub mod Appraisal
pub mod Sensitivity
pub mod Indicative
pub mod Waterfall
pub mod Histogram
pub mod Dcf
pub mod Lengths
pub mod Covenants
pub mod Deposits
pub mod Benchmarks
pub mod Exposure
pub mod Rollups
pub mod Cash
pub mod Monitoring
pub mod Scenario
pub mod Comparison
pub mod Sample
mod Tests
mod BookTests
mod PeriodTests
mod ChangeTests
