-- ===== src/Sqlite/Lru/Restart.antt =====
-- `init` of the LRU cache over SQLite, on a table and metadata that `backup` has left.
use x_cache_manager.Prelude.{◌≡◌, some, []}
use x_cache_manager.Sqlite.Table.{first}
use x_cache_manager.Sqlite.LruStatements.{Cache, cache_entry, newer}
use x_cache_manager.Sqlite.Lru
use x_cache_manager.Sqlite.Lru.{Lru}
use x_cache_manager.Sqlite.Lru.Invariant.{IsValid}

-- The highest sequence is the one that the metadata counts.
abbrev pub IsCounted : Lru → Type 0
IsCounted s = (r : Cache) → first newer s.rows ≡ some r → r.sequence ≡ s.meta.sequence

-- The cache as it was, and no file reported.
abbrev pub Restores : Lru → Lru → Type 0
Restores s t = IsValid t × (t.rows ≡ s.rows) × (t.meta ≡ s.meta) × (t.callbacks ≡ [])
