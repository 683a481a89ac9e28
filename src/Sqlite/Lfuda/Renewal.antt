-- ===== src/Sqlite/Lfuda/Renewal.antt =====
-- `renew` of the LFU-DA cache over SQLite, from a valid state.
use x_cache_manager.Prelude.{
  ℕ, suc, ◌+◌, ◌^◌, ◌≡◌, ◌<◌, ◌⊎◌, Bool, true, false, none, some, List, Str, ltb, if◌then◌else◌,
  add64,
}
use x_cache_manager.Container.Values.{find_value, replace_value}
use x_cache_manager.Sqlite.Table.{All}
use x_cache_manager.Sqlite.LfudaStatements.{Cache, cache_entry}
use x_cache_manager.Sqlite.Lfuda
use x_cache_manager.Sqlite.Lfuda.{Lfuda, M}

-- The row after one more use: the time goes no further back, and the effective frequency is the new
-- frequency over the age.
abbrev pub touched : ℕ → ℕ → Cache → Cache
touched aging time r = record r {
  timestamp = if ltb time r.timestamp then r.timestamp else time;
  freq = add64 r.freq 1;
  eff = add64 (add64 r.freq 1) aging;
}

abbrev pub renewed : ℕ → Cache → Lfuda → Lfuda
renewed time r s = record s {
  rows = replace_value (touched s.meta.global_aging time r) s.rows;
  clock = suc (suc s.clock);
}

-- Whether the row was there; if so, it counts one more use, and nothing else has changed.
abbrev pub Renews : Str → ℕ → Lfuda → Bool → Lfuda → Type 0
Renews k time s flag t =
    ((flag ≡ false) × (find_value k s.rows ≡ none) × (t ≡ record s { clock = suc s.clock }))
    ⊎ ((r : Cache) × (flag ≡ true) × (find_value k s.rows ≡ some r) × (t ≡ renewed time r s))

-- The frequencies, with the age, are not at the end of their range.
abbrev pub AllCounting : ℕ → List Cache → Type 0
AllCounting age l = All (λ r. r.freq + 1 + age < 2 ^ 63) l
