-- ===== src/Scenario.antt =====
-- One life of a run, from its submission to its success at the second attempt, on concrete tables.
pub mod Start
pub mod Life
pub mod Policies
pub mod Runs
pub mod Messages
pub mod Bodies
pub mod Histories
pub mod Audits
pub mod Evaluations
pub mod Charges
pub mod Vaults
