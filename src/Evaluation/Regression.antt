-- ===== src/Evaluation/Regression.antt =====
-- src/agent_runtime/evaluation/regression.py: the run of a dataset against two targets.
pub mod Summaries
pub mod Runner
pub mod Losses
pub mod Entries
pub mod Reports
pub mod Payload
