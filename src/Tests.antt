-- ===== src/Tests.antt =====
-- Runs of the model on concrete requests, and the theorems at concrete inputs.
pub mod Samples
pub mod Ranges
pub mod Caching
pub mod Securing
pub mod Screening
pub mod Answers
pub mod Configured
pub mod Starting
pub mod Commands
pub mod Chained
pub mod Preloaded
