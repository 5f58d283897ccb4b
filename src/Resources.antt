-- ===== src/Resources.antt =====
-- src/agent_runtime/execution/resource_executor.py
pub mod Charging
pub mod Jobs
pub mod Payments
pub mod Keeps
pub mod Charges
pub mod Transactions
