-- ===== src/Sqlite/Lru/Put.antt =====
-- `put` of the LRU cache over SQLite, from a valid state.
use x_cache_manager.Prelude.{suc, ◌+◌, ◌≡◌, ◌⊎◌, Bool, true, false, none, some, [], ◌∷◌, ◌++◌, ◌>>◌}
use x_cache_manager.Container.Values.{find_value}
use x_cache_manager.Sqlite.LruStatements.{Cache, cache_entry}
use x_cache_manager.Sqlite.Lru
use x_cache_manager.Sqlite.Lru.{Lru, Error, M, bad_size}
use x_cache_manager.Sqlite.Lru.Invariant.{IsValid}

-- The row that a new entry becomes.
abbrev numbered : Cache → Lru → Cache
numbered c s = record c { sequence = s.meta.sequence + 1 }

abbrev inserted : Cache → Lru → Lru
inserted c s = record s {
  rows = s.rows ++ numbered c s ∷ [];
  meta = record s.meta {
    sequence = s.meta.sequence + 1;
    cache_size = Lru.add64 s.meta.cache_size c.size;
  };
  clock = suc s.clock;
}

-- A new entry is the most recent one, with all that was given; a present one is renewed.
abbrev pub Puts : Cache → Lru → Bool → Lru → Type 0
Puts c s flag t =
    IsValid t
    × (t.meta.max_size ≡ s.meta.max_size)
    × (t.meta.sequence ≡ s.meta.sequence + 1)
    × (((flag ≡ true)
          × (find_value c.key s.rows ≡ none)
          × (find_value c.key t.rows ≡ some (record c { sequence = t.meta.sequence })))
        ⊎ ((r : Cache) × (flag ≡ false) × (find_value c.key s.rows ≡ some r)))
