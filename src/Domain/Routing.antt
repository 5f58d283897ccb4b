-- ===== src/Domain/Routing.antt =====
-- src/agent_runtime/domain/routing.py
pub mod Scores
pub mod Decisions
pub mod Ranking
