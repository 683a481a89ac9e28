-- ===== src/Sqlite/Lfuda/Put.antt =====
-- `put` of the LFU-DA cache over SQLite, from a valid state.
use x_cache_manager.Prelude.{
  suc, ◌+◌, ◌≡◌, ◌≤◌, ◌⊎◌, Bool, true, false, none, some, [], ◌∷◌, ◌++◌, ◌>>◌, add64,
}
use x_cache_manager.Container.Values.{find_value}
use x_cache_manager.Sqlite.LfudaStatements.{Cache, cache_entry}
use x_cache_manager.Sqlite.Lfuda
use x_cache_manager.Sqlite.Lfuda.{Lfuda, Error, M, bad_size}
use x_cache_manager.Sqlite.Lfuda.Invariant.{IsValid}

-- The row that a new entry becomes.
abbrev numbered : Cache → Lfuda → Cache
numbered c s = record c { freq = 1; eff = add64 s.meta.global_aging 1 }

abbrev inserted : Cache → Lfuda → Lfuda
inserted c s = record s {
  rows = s.rows ++ numbered c s ∷ [];
  meta = record s.meta { cache_size = Lfuda.add64 s.meta.cache_size c.size };
  clock = suc s.clock;
}

-- A new entry starts with the frequency 1 over the age; a present one is renewed.
abbrev pub Puts : Cache → Lfuda → Bool → Lfuda → Type 0
Puts c s flag t =
    IsValid t
    × (t.meta.max_size ≡ s.meta.max_size)
    × (s.meta.global_aging ≤ t.meta.global_aging)
    × (((flag ≡ true)
          × (find_value c.key s.rows ≡ none)
          × (find_value c.key t.rows ≡ some (record c { freq = 1; eff = t.meta.global_aging + 1 })))
        ⊎ ((r : Cache) × (flag ≡ false) × (find_value c.key s.rows ≡ some r)))
