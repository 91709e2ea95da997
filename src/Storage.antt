-- ===== src/Storage.antt =====
-- The storage layers of evget/src/storage: the interface (Store), the filter by device type
-- (Filter), the JSON store (Json), the database store (Sql) and the manager that buffers events
-- (Manager).
pub mod Store
pub mod Filter
pub mod Json
pub mod Sql
pub mod Init
pub mod Manager
mod Examples
