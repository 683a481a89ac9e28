-- ===== src/Sqlite/LfudaStatements.antt =====
-- The statements on `cacheLFUDA` and `metaLFUDA` of src/sqlite/sql_statement.h, as functions of the rows,
-- by SQLite's documentation. Numbers stand for the integers of a column, which are below 2^63.
use x_cache_manager.Prelude.{
  ℕ, Bool, Option, none, some, List, [], ◌∷◌, ◌++◌, Str, ltb, ◌==◌, if◌then◌else◌, is_some,
}
use x_cache_manager.Container.Nodes.{Entry}
use x_cache_manager.Container.Values.{find_value, remove_value, replace_value}
use x_cache_manager.Sqlite.Table.{first, order_by}

-- `CacheLFUDA`, a row of `cacheLFUDA`.
pub record Cache : Type 0 where
  pub key : Str
  pub size : ℕ
  pub download_time : ℕ
  pub hash : List ℕ
  pub timestamp : ℕ
  pub freq : ℕ
  pub eff : ℕ

instance abbrev pub cache_entry : Entry Cache
cache_entry = record { key = λ c. c.key; size = λ c. c.size }

-- `MetaLFUDA`, the row of `metaLFUDA`.
pub record Meta : Type 0 where
  pub cache_size : ℕ
  pub max_size : ℕ
  pub global_aging : ℕ

-- `TFE`: timestamp, freq and eff of a row.
pub record Tfe : Type 0 where
  pub key : Str
  pub timestamp : ℕ
  pub freq : ℕ
  pub eff : ℕ

-- A change gives the number of changed rows and the rows, or `none` where it breaks a constraint.
abbrev pub Change : Type 0
Change = List Cache → Option (ℕ × List Cache)

-- `key` is the primary key.
unfoldable pub sql_insert_lfuda : Cache → Change
sql_insert_lfuda c rows = if is_some (find_value c.key rows) then none else some (1, rows ++ c ∷ [])

unfoldable pub sql_update_tfe_lfuda : ℕ → ℕ → ℕ → Str → Change
sql_update_tfe_lfuda timestamp freq eff k rows = elim (find_value k rows) [
  | none ↦ some (0, rows)
  | some r ↦
      some (1, replace_value (record r { timestamp = timestamp; freq = freq; eff = eff }) rows)
]

unfoldable pub sql_update_content_lfuda : ℕ → Str → Change
sql_update_content_lfuda size k rows = elim (find_value k rows) [
  | none ↦ some (0, rows)
  | some r ↦ some (1, replace_value (record r { size = size }) rows)
]

unfoldable pub sql_query_count_lfuda : Str → List Cache → ℕ
sql_query_count_lfuda k rows = if is_some (find_value k rows) then 1 else 0

-- A query gives the rows that it returns.
unfoldable pub sql_query_single_lfuda : Str → List Cache → Option Cache
sql_query_single_lfuda k rows = find_value k rows

-- `SELECT key, timestamp, freq, eff`.
unfoldable pub sql_query_tfe_lfuda : Str → List Cache → Option Tfe
sql_query_tfe_lfuda k rows = elim (find_value k rows) [
  | none ↦ none
  | some r ↦ some (record { key = r.key; timestamp = r.timestamp; freq = r.freq; eff = r.eff })
]

-- `ORDER BY eff ASC, freq ASC, timestamp ASC, size ASC`.
unfoldable pub worse : Cache → Cache → Bool
worse a b =
    if a.eff == b.eff
    then if a.freq == b.freq
      then if a.timestamp == b.timestamp then ltb a.size b.size else ltb a.timestamp b.timestamp
      else ltb a.freq b.freq
    else ltb a.eff b.eff

unfoldable pub sql_query_worst_lfuda : List Cache → Option Cache
sql_query_worst_lfuda rows = first worse rows

unfoldable pub sql_query_all_lfuda : List Cache → List Cache
sql_query_all_lfuda rows = order_by worse rows

-- `DELETE ... RETURNING` gives the row that it deletes.
unfoldable pub sql_delete_single_lfuda : Str → List Cache → Option Cache × List Cache
sql_delete_single_lfuda k rows = (find_value k rows, remove_value k rows)

abbrev pub delete_found : Option Cache → List Cache → Option Cache × List Cache
delete_found none rows = (none, rows)
delete_found (some r) rows = (some r, remove_value r.key rows)

unfoldable pub sql_delete_worst_lfuda : List Cache → Option Cache × List Cache
sql_delete_worst_lfuda rows = delete_found (first worse rows) rows

-- `UPDATE metaLFUDA ... WHERE id = 1`, `INSERT INTO metaLFUDA` and the query of its row.
unfoldable pub sql_update_metalfuda : Meta → Option Meta → ℕ × Option Meta
sql_update_metalfuda m none = (0, none)
sql_update_metalfuda m (some _) = (1, some m)

unfoldable pub sql_insert_metalfuda : Meta → Option Meta → Option (Option Meta)
sql_insert_metalfuda m none = some (some m)
sql_insert_metalfuda m (some _) = none

-- What `query_single` returns where there is no row.
abbrev pub no_cache : Cache
no_cache = record {
  key = [];
  size = 0;
  download_time = 0;
  hash = [];
  timestamp = 0;
  freq = 0;
  eff = 0;
}

abbrev pub no_meta : Meta
no_meta = record { cache_size = 0; max_size = 0; global_aging = 0 }

abbrev pub row_or_default : Option Cache → Cache
row_or_default none = no_cache
row_or_default (some r) = r

abbrev pub meta_or_default : Option Meta → Meta
meta_or_default none = no_meta
meta_or_default (some m) = m

abbrev pub tfe_or_default : Option Tfe → Tfe
tfe_or_default none = record { key = []; timestamp = 0; freq = 0; eff = 0 }
tfe_or_default (some t) = t
