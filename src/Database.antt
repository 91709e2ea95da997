-- ===== src/Database.antt =====
-- The database layer of evget/src/database: the interfaces of connections and queries (Connection)
-- and the migrations of the schema (Migrate).
pub mod Connection
pub mod Migrate
mod Examples
