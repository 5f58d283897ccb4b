-- ===== src/Execution.antt =====
-- src/agent_runtime/infrastructure/database/execution_service.py, the service that owns claims,
-- attempts, terminal writes and the recovery of leases. Each method is one transaction: it returns
-- the tables that it commits, or raises and commits nothing. Metrics are left out.
pub mod Common
pub mod Summaries
pub mod Openings
pub mod Frames
pub mod Claim
pub mod Finish
pub mod Scheduler
