-- ===== src/Sqlite/Lfuda.antt =====
-- The LFU-DA cache over SQLite: src/algo/algo_lfuda_sqlite.h and algo_lfuda_sqlite.cpp, src/db_adapter/db_sqlite_lfuda.h, and the statements on
-- `cacheLFUDA` and `metaLFUDA` of src/sqlite/sql_statement.h. `fails n` says whether the engine reports
-- an error at the n-th statement. What is printed to the error stream is left out.
pub mod Invariant
pub mod Rounds
pub mod Eviction
pub mod Sizes
pub mod Renewal
pub mod Lookups
pub mod Put
pub mod Update
pub mod Restart
use x_cache_manager.Prelude.{
  ℕ, suc, zero, ◌+◌, ◌-◌, ◌%◌, ◌^◌, Bool, true, false, ◌&&◌, ◌||◌, not, Option, none, some, List,
  [], ◌∷◌, ◌++◌, Str, str_eq, ltb, leb, ◌==◌, if◌then◌else◌, is_empty, is_some, length, add64,
  sub64, Outcome, Exec, returns, throws, undefined, ◌>>=◌, ◌>>◌, pure, raise,
}
use mathlib.Core.List.{reverse}
use x_cache_manager.Sqlite.LfudaStatements.{
  Cache, cache_entry, Meta, sql_insert_lfuda, sql_update_tfe_lfuda, sql_query_tfe_lfuda, Tfe,
  tfe_or_default, sql_update_content_lfuda, sql_query_count_lfuda, sql_query_single_lfuda,
  sql_query_worst_lfuda, sql_query_all_lfuda, sql_delete_single_lfuda, sql_delete_worst_lfuda,
  sql_update_metalfuda, sql_insert_metalfuda, row_or_default, meta_or_default,
}

pub data Error : Type 0 where
  sqlite_error key_null bad_size max_size_zero fatal_logic : Error
  size_mismatch size_mismatch_or_empty_key : Error
  init_max_size_zero init_empty_but_size init_size : Error

-- The object, and the database that it has open; `clock` counts the statements.
pub record Lfuda : Type 0 where
  pub rows : List Cache
  pub meta_row : Option Meta
  pub meta : Meta
  pub clock : ℕ
  pub callbacks : List (List Cache)

abbrev pub M : Type 0 → Type 0
M A = Exec Error Lfuda A

-- The constructor, on an open database.
unfoldable pub construct : List Cache → Option Meta → Lfuda
construct rows row = record {
  rows = rows;
  meta_row = row;
  meta = record { cache_size = 0; max_size = 0; global_aging = 0 };
  clock = 0;
  callbacks = [];
}

unfoldable pub over_limit : ℕ → Lfuda → Bool
over_limit required s = ltb s.meta.max_size (add64 s.meta.cache_size required)

unfoldable pub report : List Cache → Lfuda → Lfuda
report removed s = record s { callbacks = s.callbacks ++ removed ∷ [] }

-- `if(removed.size())remove_callback(removed)`.
unfoldable pub notify : List Cache → Lfuda → Lfuda
notify removed s = if is_empty removed then s else report removed s

unfoldable pub shrink : Cache → Lfuda → Lfuda
shrink entry s = record s {
  meta = record s.meta { cache_size = sub64 s.meta.cache_size entry.size };
}

unfoldable pub age : Cache → Lfuda → Lfuda
age entry s = record s { meta = record s.meta { global_aging = entry.eff } }

unfoldable pub grow : ℕ → M (Unit {0})
grow size s =
    returns tt (record s { meta = record s.meta { cache_size = add64 s.meta.cache_size size } })

abbrev pub meta_of : M Meta
meta_of s = returns s.meta s

unfoldable pub set_meta : Meta → M (Unit {0})
set_meta m s = returns tt (record s { meta = m })

abbrev pub require : Bool → Error → M (Unit {0})
require true e s = returns tt s
require false e s = throws e s

module _ (fails : ℕ → Bool) where
  -- One statement on `cacheLFUDA`.
  unfoldable pub statement : {A : Type 0} → (List Cache → Option (A × List Cache)) → M A
  statement f s =
      let t = record s { clock = suc s.clock } in
      if fails s.clock then throws sqlite_error t else elim (f s.rows) [
        | none ↦ throws sqlite_error t
        | some (a, rows) ↦ returns a (record t { rows = rows })
      ]

  -- One statement on `metaLFUDA`.
  unfoldable pub meta_statement : {A : Type 0} → (Option Meta → Option (A × Option Meta)) → M A
  meta_statement f s =
      let t = record s { clock = suc s.clock } in
      if fails s.clock then throws sqlite_error t else elim (f s.meta_row) [
        | none ↦ throws sqlite_error t
        | some (a, row) ↦ returns a (record t { meta_row = row })
      ]

  abbrev select : {A : Type 0} → (List Cache → A) → M A
  select f = statement (λ rows. some (f rows, rows))

  -- `class SQLiteLFUDA`.
  unfoldable pub insert_lru : Cache → M ℕ
  insert_lru entry = statement (sql_insert_lfuda entry)

  unfoldable pub insert_meta : Meta → M ℕ
  insert_meta entry =
      meta_statement
        (λ row. elim (sql_insert_metalfuda entry row) [ none ↦ none | some r ↦ some (1, r) ])

  unfoldable pub update_lfuda_tfe : Str → ℕ → ℕ → ℕ → M ℕ
  update_lfuda_tfe key timestamp freq eff = statement (sql_update_tfe_lfuda timestamp freq eff key)

  unfoldable pub update_lfuda_content : Str → ℕ → M ℕ
  update_lfuda_content key size = statement (sql_update_content_lfuda size key)

  unfoldable pub update_meta : Meta → M ℕ
  update_meta entry = meta_statement (λ row. some (sql_update_metalfuda entry row))

  unfoldable pub query_lfuda_count : Str → M ℕ
  query_lfuda_count key = select (sql_query_count_lfuda key)

  unfoldable pub query_lfuda_single : Str → M Cache
  query_lfuda_single key = select (λ rows. row_or_default (sql_query_single_lfuda key rows))

  unfoldable pub query_lfuda_time : Str → M Tfe
  query_lfuda_time key = select (λ rows. tfe_or_default (sql_query_tfe_lfuda key rows))

  unfoldable pub query_lfuda_worst : M Cache
  query_lfuda_worst = select (λ rows. row_or_default (sql_query_worst_lfuda rows))

  -- The vector grows by the back of the query's.
  unfoldable pub query_lfuda_all : M (List Cache)
  query_lfuda_all = select (λ rows. reverse (sql_query_all_lfuda rows))

  unfoldable pub query_meta : M Meta
  query_meta = meta_statement (λ row. some (meta_or_default row, row))

  unfoldable pub delete_lfuda_single : Str → M Cache
  delete_lfuda_single key =
      statement
        (λ rows. let (r, rest) = sql_delete_single_lfuda key rows in some (row_or_default r, rest))

  unfoldable pub delete_lfuda_old : M Cache
  delete_lfuda_old =
      statement
        (λ rows. let (r, rest) = sql_delete_worst_lfuda rows in some (row_or_default r, rest))

  -- The body of the loop of `remove_cache` after its statement: the entry that was deleted, whether
  -- the loop goes on.
  unfoldable pub after_delete : List Cache → Cache → M (Unit {0})
  after_delete removed entry s =
      if is_empty entry.key
      then throws size_mismatch_or_empty_key (notify removed s)
      else if ltb s.meta.cache_size entry.size
      then throws size_mismatch (report (removed ++ entry ∷ []) s)
      else returns tt (age entry (shrink entry s))

  -- The loop of `remove_cache`. Each round deletes a row, or throws.
  unfoldable pub evict : ℕ → ℕ → Str → List Cache → Bool → M (List Cache × Bool)
  evict zero required mark removed flag s = undefined
  evict (suc fuel) required mark removed flag s = elim (over_limit required s) [
    | false ↦ returns (removed, flag) s
    | true ↦
        (do
          entry ← delete_lfuda_old
          after_delete removed entry
          evict fuel required mark (removed ++ entry ∷ []) (flag || str_eq entry.key mark))
          s
  ]

  unfoldable pub report_all : List Cache × Bool → M Bool
  report_all (removed, flag) s = returns flag (notify removed s)

  unfoldable pub remove_cache : ℕ → Str → M Bool
  remove_cache required mark s =
      if over_limit required s
      then (evict (suc (length s.rows)) required mark [] false >>= report_all) s
      else returns false s

  -- The end of `update_size`: the entry is still there.
  unfoldable pub write_size : Cache → ℕ → M (Unit {0})
  write_size cache new_size s =
      if ltb s.meta.cache_size cache.size
      then throws size_mismatch s
      else (do
        grow new_size
        n ← update_lfuda_content cache.key new_size
        require (not (n == 0)) fatal_logic)
          (shrink cache s)

  unfoldable pub update_size : Cache → ℕ → M (Unit {0})
  update_size cache new_size =
      if new_size == cache.size
      then pure tt
      else if ltb cache.size new_size
      then (do
        gone ← remove_cache (new_size - cache.size) cache.key
        if gone then pure tt else write_size cache new_size)
      else write_size cache new_size

  -- The time goes no further back than the last access, and `eff = ++freq + global_aging`.
  unfoldable pub touch : Str → ℕ → Tfe → M Bool
  touch key timestamp entry = do
    m ← meta_of
    changed ←
        update_lfuda_tfe key (if ltb timestamp entry.timestamp then entry.timestamp else timestamp)
          (add64 entry.freq 1) (add64 (add64 entry.freq 1) m.global_aging)
    require (not (changed == 0)) fatal_logic
    pure true

  unfoldable pub renew : Str → ℕ → M Bool
  renew key timestamp = if is_empty key then raise key_null else do
    entry ← query_lfuda_time key
    if is_empty entry.key then pure false else touch key timestamp entry

  unfoldable pub check_size : ℕ → M (Unit {0})
  check_size size = do m ← meta_of; require (not (size == 0 || ltb m.max_size size)) bad_size

  unfoldable pub add_row : Cache → M Bool
  add_row cache = do
    m ← meta_of
    changed ← insert_lru (record cache { freq = 1; eff = add64 m.global_aging 1 })
    require (not (changed == 0)) fatal_logic
    grow cache.size
    pure true

  unfoldable pub put_new : Cache → M Bool
  put_new cache = do _ ← remove_cache cache.size []; add_row cache

  unfoldable pub put_old : Cache → Cache → M Bool
  put_old cache entry = do
    renewed ← renew entry.key cache.timestamp
    require renewed fatal_logic
    if ltb entry.size cache.size then update_size entry cache.size else pure tt
    pure false

  unfoldable pub put : Cache → M Bool
  put cache = if is_empty cache.key then raise key_null else do
    check_size cache.size
    entry ← query_lfuda_single cache.key
    if is_empty entry.key then put_new cache else put_old cache entry

  unfoldable pub update : Str → ℕ → M Bool
  update key new_size = if is_empty key then raise key_null else do
    check_size new_size
    entry ← query_lfuda_single key
    if is_empty entry.key then pure false else (do update_size entry new_size; pure true)

  unfoldable pub resize : ℕ → M (Unit {0})
  resize new_size s =
      if new_size == 0
      then throws max_size_zero s
      else (do _ ← remove_cache 0 []; pure tt)
          (record s { meta = record s.meta { max_size = new_size } })

  unfoldable pub query : Str → M Cache
  query key = if is_empty key then raise key_null else query_lfuda_single key

  unfoldable pub backup : M (Unit {0})
  backup s = (do _ ← update_meta s.meta; pure tt) s

  unfoldable pub fit_limit : M (Unit {0})
  fit_limit s =
      if ltb s.meta.max_size s.meta.cache_size
      then (do _ ← remove_cache 0 []; pure tt) s
      else returns tt s

  unfoldable pub init : M (Unit {0})
  init = do
    m ← query_meta
    set_meta m
    require (not (m.max_size == 0)) init_max_size_zero
    entry ← query_lfuda_worst
    require (not (is_empty entry.key && ltb 0 m.cache_size)) init_empty_but_size
    require (is_empty entry.key || leb entry.size m.cache_size) init_size
    fit_limit

  -- `display` writes the metadata back, and prints the rest.
  unfoldable pub display : M (Unit {0})
  display = do _ ← query_lfuda_all; backup; _ ← query_meta; pure tt

  unfoldable pub destroy : M (Unit {0})
  destroy = backup
