-- ===== src/Evaluation.antt =====
-- src/agent_runtime/evaluation: the rules that judge the result of a run, the limits on what they may
-- read, and the regression runner.
pub mod Digits
pub mod Text
pub mod Safety
pub mod Equality
pub mod Engine
pub mod Dataset
pub mod Regression
