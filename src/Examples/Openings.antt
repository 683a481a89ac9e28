-- ===== src/Examples/Openings.antt =====
-- Openings of databases by the constructors of src/db_adapter, and their theorem at a new one.
use x_cache_manager.Prelude.{
  ℕ, ◌≡◌, refl, Bool, true, false, Option, none, some, [], ◌∷◌, Str, Outcome, returns, throws,
  last?,
}
use x_cache_manager.Sqlite.Opening
use x_cache_manager.Sqlite.Opening.{
  Disk, Schema, cache_lru, meta_lru, index_lru, cache_lfuda, meta_lfuda, index_lfuda, path_of,
  simple_failed, sqlite_lru, sqlite_lfuda,
}
use x_cache_manager.Sqlite.Opening.Openings.{Opened, adapters_open}

abbrev directory : Str → Bool
directory work_dir = true

abbrev working : ℕ → Bool
working n = false

abbrev empty_disk : Disk
empty_disk = record { files = λ p. none; clock = 0 }

-- A database of the LRU cache whose table of metadata is missing.
abbrev incomplete : Disk
incomplete = record { files = λ p. some (cache_lru ∷ []); clock = 0 }

abbrev is_new : {E S : Type 0} → Outcome E S Bool → Option Bool
is_new (returns b s) = some b
is_new (throws e s) = none
is_new Outcome.undefined = none

-- "d/c".
joined : path_of (b'd' ∷ []) (b'c' ∷ []) ≡ some (b'd' ∷ b'/' ∷ b'c' ∷ [])
unfolding path_of last?
joined = refl

-- It is taken for a complete one, and refused by the other cache.
taken : is_new (sqlite_lru working directory (b'd' ∷ []) (b'c' ∷ []) incomplete) ≡ some false
unfolding sqlite_lru Opening.construct Opening.open_db Opening.tables Opening.check Opening.prepare
    Opening.execute Opening.sql_create_index Opening.lists path_of last?
taken = refl

refused : is_new (sqlite_lfuda working directory (b'd' ∷ []) (b'c' ∷ []) incomplete) ≡ none
unfolding sqlite_lfuda Opening.construct Opening.open_db Opening.tables Opening.check
    Opening.prepare Opening.execute Opening.sql_create_index Opening.lists path_of last?
refused = refl

adapters_open_example :
    Opened working
      (b'd' ∷ b'/' ∷ b'c' ∷ [])
      cache_lru
      meta_lru
      index_lru
      empty_disk
      (sqlite_lru working directory (b'd' ∷ []) (b'c' ∷ []) empty_disk)
    × Opened working
        (b'd' ∷ b'/' ∷ b'c' ∷ [])
        cache_lfuda
        meta_lfuda
        index_lfuda
        empty_disk
        (sqlite_lfuda working directory (b'd' ∷ []) (b'c' ∷ []) empty_disk)
adapters_open_example =
    adapters_open directory working (b'd' ∷ []) (b'c' ∷ []) (b'd' ∷ b'/' ∷ b'c' ∷ []) empty_disk
      refl joined
