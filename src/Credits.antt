-- ===== src/Credits.antt =====
-- internal/credits: what a request is expected to cost, and who may make one.
pub mod Estimator
pub mod Gate
pub mod Sweeper
mod Examples
