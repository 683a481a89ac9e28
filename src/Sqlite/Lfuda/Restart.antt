-- ===== src/Sqlite/Lfuda/Restart.antt =====
-- `init` of the LFU-DA cache over SQLite, on a table and metadata that `backup` has left.
use x_cache_manager.Prelude.{◌≡◌, []}
use x_cache_manager.Sqlite.LfudaStatements.{cache_entry}
use x_cache_manager.Sqlite.Lfuda
use x_cache_manager.Sqlite.Lfuda.{Lfuda}
use x_cache_manager.Sqlite.Lfuda.Invariant.{IsValid}

-- The cache as it was, and no file reported.
abbrev pub Restores : Lfuda → Lfuda → Type 0
Restores s t = IsValid t × (t.rows ≡ s.rows) × (t.meta ≡ s.meta) × (t.callbacks ≡ [])
