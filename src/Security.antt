-- ===== src/Security.antt =====
-- src/agent_runtime/security: the encryption of a tenant's data under a key of its own.
pub mod Vault
pub mod Envelope
