-- ===== src/Store.antt =====
-- The durable state: the tables of src/agent_runtime/infrastructure/database/models.py that the
-- services read and write, one record for a row and one list for a table.
pub mod Tables
unfoldable pub use Tables.*
