-- ===== src/Domain.antt =====
-- The framework-independent rules of src/agent_runtime/domain: the run lifecycle and the retry policy.
pub mod States
pub mod Retry
pub mod Routing
pub mod Policy
