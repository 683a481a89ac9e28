-- ===== src/Sqlite/Lru.antt =====
-- The LRU cache over SQLite: src/algo/algo_lru_sqlite.h and algo_lru_sqlite.cpp (which
-- algo_lru_redis.cpp repeats word for word), src/db_adapter/db_sqlite_lru.h, and the statements on
-- `cacheLRU` and `metaLRU` of src/sqlite/sql_statement.h. `fails n` says whether the engine reports
-- an error at the n-th statement. What is printed to the error stream is left out.
pub mod Invariant
pub mod Rounds
pub mod Eviction
pub mod Sizes
pub mod Renewal
pub mod Lookups
pub mod Put
pub mod Update
pub mod Restart
use x_cache_manager.Prelude.{
  ℕ, suc, zero, ◌+◌, ◌-◌, ◌%◌, ◌^◌, Bool, true, false, ◌&&◌, ◌||◌, not, Option, none, some, List,
  [], ◌∷◌, ◌++◌, Str, str_eq, ltb, leb, ◌==◌, if◌then◌else◌, is_empty, is_some, length, add64,
  sub64, Outcome, Exec, returns, throws, undefined, ◌>>=◌, ◌>>◌, pure, raise,
}
use mathlib.Core.List.{reverse}
use x_cache_manager.Sqlite.LruStatements.{
  Cache, cache_entry, Meta, sql_insert_lru, sql_update_seq_lru, sql_update_content_lru,
  sql_query_count_lru, sql_query_single_lru, sql_query_old_lru, sql_query_new_lru,
  sql_query_all_lru, sql_delete_single_lru, sql_delete_old_lru, sql_update_metalru,
  sql_insert_metalru, row_or_default, meta_or_default,
}

pub data Error : Type 0 where
  sqlite_error key_null bad_size max_size_zero fatal_logic : Error
  size_mismatch size_mismatch_or_empty_key : Error
  init_max_size_zero init_empty_but_size init_sequence init_size : Error

-- The object, and the database that it has open; `clock` counts the statements.
pub record Lru : Type 0 where
  pub rows : List Cache
  pub meta_row : Option Meta
  pub meta : Meta
  pub clock : ℕ
  pub callbacks : List (List Cache)

abbrev pub M : Type 0 → Type 0
M A = Exec Error Lru A

-- The constructor, on an open database.
unfoldable pub construct : List Cache → Option Meta → Lru
construct rows row = record {
  rows = rows;
  meta_row = row;
  meta = record { cache_size = 0; max_size = 0; sequence = 0 };
  clock = 0;
  callbacks = [];
}

unfoldable pub over_limit : ℕ → Lru → Bool
over_limit required s = ltb s.meta.max_size (add64 s.meta.cache_size required)

unfoldable pub report : List Cache → Lru → Lru
report removed s = record s { callbacks = s.callbacks ++ removed ∷ [] }

-- `if(removed.size())remove_callback(removed)`.
unfoldable pub notify : List Cache → Lru → Lru
notify removed s = if is_empty removed then s else report removed s

unfoldable pub shrink : Cache → Lru → Lru
shrink entry s = record s {
  meta = record s.meta { cache_size = sub64 s.meta.cache_size entry.size };
}

-- `sequence + 1` of an `int64_t`: past the end its behaviour is undefined.
unfoldable pub next_sequence : M ℕ
next_sequence s =
    if ltb (s.meta.sequence + 1) (2 ^ 63) then returns (s.meta.sequence + 1) s else undefined

-- `meta_lru.sequence++`.
unfoldable pub count_up : M (Unit {0})
count_up s = returns tt (record s { meta = record s.meta { sequence = s.meta.sequence + 1 } })

unfoldable pub grow : ℕ → M (Unit {0})
grow size s =
    returns tt (record s { meta = record s.meta { cache_size = add64 s.meta.cache_size size } })

abbrev pub meta_of : M Meta
meta_of s = returns s.meta s

unfoldable pub set_meta : Meta → M (Unit {0})
set_meta m s = returns tt (record s { meta = m })

abbrev pub require : Bool → Error → M (Unit {0})
require true e s = returns tt s
require false e s = throws e s

module _ (fails : ℕ → Bool) where
  -- One statement on `cacheLRU`.
  unfoldable pub statement : {A : Type 0} → (List Cache → Option (A × List Cache)) → M A
  statement f s =
      let t = record s { clock = suc s.clock } in
      if fails s.clock then throws sqlite_error t else elim (f s.rows) [
        | none ↦ throws sqlite_error t
        | some (a, rows) ↦ returns a (record t { rows = rows })
      ]

  -- One statement on `metaLRU`.
  unfoldable pub meta_statement : {A : Type 0} → (Option Meta → Option (A × Option Meta)) → M A
  meta_statement f s =
      let t = record s { clock = suc s.clock } in
      if fails s.clock then throws sqlite_error t else elim (f s.meta_row) [
        | none ↦ throws sqlite_error t
        | some (a, row) ↦ returns a (record t { meta_row = row })
      ]

  abbrev select : {A : Type 0} → (List Cache → A) → M A
  select f = statement (λ rows. some (f rows, rows))

  -- `class SQLiteLRU`.
  unfoldable pub insert_lru : Cache → M ℕ
  insert_lru entry = statement (sql_insert_lru entry)

  unfoldable pub insert_meta : Meta → M ℕ
  insert_meta entry =
      meta_statement
        (λ row. elim (sql_insert_metalru entry row) [ none ↦ none | some r ↦ some (1, r) ])

  unfoldable pub update_lru_seq : Str → ℕ → M ℕ
  update_lru_seq key sequence = statement (sql_update_seq_lru sequence key)

  unfoldable pub update_lru_content : Str → ℕ → M ℕ
  update_lru_content key size = statement (sql_update_content_lru size key)

  unfoldable pub update_meta : Meta → M ℕ
  update_meta entry = meta_statement (λ row. some (sql_update_metalru entry row))

  unfoldable pub query_lru_count : Str → M ℕ
  query_lru_count key = select (sql_query_count_lru key)

  unfoldable pub query_lru_single : Str → M Cache
  query_lru_single key = select (λ rows. row_or_default (sql_query_single_lru key rows))

  unfoldable pub query_lru_old : M Cache
  query_lru_old = select (λ rows. row_or_default (sql_query_old_lru rows))

  unfoldable pub query_lru_new : M Cache
  query_lru_new = select (λ rows. row_or_default (sql_query_new_lru rows))

  -- The vector grows by the back of the query's.
  unfoldable pub query_lru_all : M (List Cache)
  query_lru_all = select (λ rows. reverse (sql_query_all_lru rows))

  unfoldable pub query_meta : M Meta
  query_meta = meta_statement (λ row. some (meta_or_default row, row))

  unfoldable pub delete_lru_single : Str → M Cache
  delete_lru_single key =
      statement
        (λ rows. let (r, rest) = sql_delete_single_lru key rows in some (row_or_default r, rest))

  unfoldable pub delete_lru_old : M Cache
  delete_lru_old =
      statement (λ rows. let (r, rest) = sql_delete_old_lru rows in some (row_or_default r, rest))

  -- The body of the loop of `remove_cache` after its statement: the entry that was deleted, whether
  -- the loop goes on.
  unfoldable pub after_delete : List Cache → Cache → M (Unit {0})
  after_delete removed entry s =
      if is_empty entry.key
      then throws size_mismatch_or_empty_key (notify removed s)
      else if ltb s.meta.cache_size entry.size
      then throws size_mismatch (report (removed ++ entry ∷ []) s)
      else returns tt (shrink entry s)

  -- The loop of `remove_cache`. Each round deletes a row, or throws.
  unfoldable pub evict : ℕ → ℕ → Str → List Cache → Bool → M (List Cache × Bool)
  evict zero required mark removed flag s = undefined
  evict (suc fuel) required mark removed flag s = elim (over_limit required s) [
    | false ↦ returns (removed, flag) s
    | true ↦
        (do
          entry ← delete_lru_old
          after_delete removed entry
          evict fuel required mark (removed ++ entry ∷ []) (flag || str_eq entry.key mark))
          s
  ]

  unfoldable pub report_all : List Cache × Bool → M Bool
  report_all (removed, flag) s = returns flag (notify removed s)

  unfoldable pub remove_cache : ℕ → Str → M Bool
  remove_cache required mark s =
      if over_limit required s
      then (evict (suc (length s.rows)) required mark [] false >>= report_all) s
      else returns false s

  -- The end of `update_size`: the entry is still there.
  unfoldable pub write_size : Cache → ℕ → M (Unit {0})
  write_size cache new_size s =
      if ltb s.meta.cache_size cache.size
      then throws size_mismatch s
      else (do
        grow new_size
        n ← update_lru_content cache.key new_size
        require (not (n == 0)) fatal_logic)
          (shrink cache s)

  unfoldable pub update_size : Cache → ℕ → M (Unit {0})
  update_size cache new_size =
      if new_size == cache.size
      then pure tt
      else if ltb cache.size new_size
      then (do
        gone ← remove_cache (new_size - cache.size) cache.key
        if gone then pure tt else write_size cache new_size)
      else write_size cache new_size

  unfoldable pub renew : Str → M Bool
  renew key = if is_empty key then raise key_null else do
    n ← next_sequence
    changed ← update_lru_seq key n
    if changed == 0 then pure false else (do count_up; pure true)

  unfoldable pub check_size : ℕ → M (Unit {0})
  check_size size = do m ← meta_of; require (not (size == 0 || ltb m.max_size size)) bad_size

  unfoldable pub add_row : Cache → M Bool
  add_row cache = do
    n ← next_sequence
    changed ← insert_lru (record cache { sequence = n })
    require (not (changed == 0)) fatal_logic
    count_up
    grow cache.size
    pure true

  unfoldable pub put_new : Cache → M Bool
  put_new cache = do _ ← remove_cache cache.size []; add_row cache

  unfoldable pub put_old : Cache → Cache → M Bool
  put_old cache entry = do
    renewed ← renew entry.key
    require renewed fatal_logic
    if ltb entry.size cache.size then update_size entry cache.size else pure tt
    pure false

  unfoldable pub put : Cache → M Bool
  put cache = if is_empty cache.key then raise key_null else do
    check_size cache.size
    entry ← query_lru_single cache.key
    if is_empty entry.key then put_new cache else put_old cache entry

  unfoldable pub update : Str → ℕ → M Bool
  update key new_size = if is_empty key then raise key_null else do
    check_size new_size
    entry ← query_lru_single key
    if is_empty entry.key then pure false else (do update_size entry new_size; pure true)

  unfoldable pub resize : ℕ → M (Unit {0})
  resize new_size s =
      if new_size == 0
      then throws max_size_zero s
      else (do _ ← remove_cache 0 []; pure tt)
          (record s { meta = record s.meta { max_size = new_size } })

  unfoldable pub query : Str → M Cache
  query key = if is_empty key then raise key_null else query_lru_single key

  unfoldable pub backup : M (Unit {0})
  backup s = (do _ ← update_meta s.meta; pure tt) s

  unfoldable pub fit_limit : M (Unit {0})
  fit_limit s =
      if ltb s.meta.max_size s.meta.cache_size
      then (do _ ← remove_cache 0 []; pure tt) s
      else returns tt s

  unfoldable pub init : M (Unit {0})
  init = do
    m ← query_meta
    set_meta m
    require (not (m.max_size == 0)) init_max_size_zero
    entry ← query_lru_new
    require (not (is_empty entry.key && ltb 0 m.cache_size)) init_empty_but_size
    require (is_empty entry.key || entry.sequence == m.sequence) init_sequence
    require (is_empty entry.key || leb entry.size m.cache_size) init_size
    fit_limit

  -- `display` writes the metadata back, and prints the rest.
  unfoldable pub display : M (Unit {0})
  display = do _ ← query_lru_all; backup; _ ← query_meta; pure tt

  unfoldable pub destroy : M (Unit {0})
  destroy = backup
