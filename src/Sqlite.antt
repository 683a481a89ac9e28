-- ===== src/Sqlite.antt =====
-- The caches that keep their entries in a table of SQLite: tables (Table), the statements, and
-- the LRU and LFU-DA caches.
pub mod Table
pub mod Opening
pub mod Ends
pub mod Access
pub mod LruStatements
pub mod Lru
pub mod LfudaStatements
pub mod Lfuda
