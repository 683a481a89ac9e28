-- ===== src/Sqlite/LruStatements.antt =====
-- The statements on `cacheLRU` and `metaLRU` of src/sqlite/sql_statement.h, as functions of the rows,
-- by SQLite's documentation. Numbers stand for the integers of a column, which are below 2^63.
use x_cache_manager.Prelude.{
  ℕ, Bool, false, ◌||◌, Option, none, some, List, [], ◌∷◌, ◌++◌, Str, ltb, ◌==◌, if◌then◌else◌,
  is_some,
}
use x_cache_manager.Container.Nodes.{Entry}
use x_cache_manager.Container.Values.{find_value, remove_value, replace_value}
use x_cache_manager.Sqlite.Table.{first, order_by}

-- `CacheLRU`, a row of `cacheLRU`.
pub record Cache : Type 0 where
  pub key : Str
  pub size : ℕ
  pub download_time : ℕ
  pub hash : List ℕ
  pub sequence : ℕ

instance abbrev pub cache_entry : Entry Cache
cache_entry = record { key = λ c. c.key; size = λ c. c.size }

-- `MetaLRU`, the row of `metaLRU`.
pub record Meta : Type 0 where
  pub cache_size : ℕ
  pub max_size : ℕ
  pub sequence : ℕ

-- `sequence INTEGER NOT NULL UNIQUE`.
unfoldable pub sequence_taken : ℕ → List Cache → Bool
sequence_taken n [] = false
sequence_taken n (r ∷ l) = r.sequence == n || sequence_taken n l

-- A change gives the number of changed rows and the rows, or `none` where it breaks a constraint.
abbrev pub Change : Type 0
Change = List Cache → Option (ℕ × List Cache)

-- `key` is the primary key.
unfoldable pub sql_insert_lru : Cache → Change
sql_insert_lru c rows =
    if is_some (find_value c.key rows) || sequence_taken c.sequence rows
    then none
    else some (1, rows ++ c ∷ [])

unfoldable pub sql_update_seq_lru : ℕ → Str → Change
sql_update_seq_lru n k rows = elim (find_value k rows) [
  | none ↦ some (0, rows)
  | some r ↦
      if sequence_taken n (remove_value k rows)
      then none
      else some (1, replace_value (record r { sequence = n }) rows)
]

unfoldable pub sql_update_content_lru : ℕ → Str → Change
sql_update_content_lru size k rows = elim (find_value k rows) [
  | none ↦ some (0, rows)
  | some r ↦ some (1, replace_value (record r { size = size }) rows)
]

unfoldable pub sql_query_count_lru : Str → List Cache → ℕ
sql_query_count_lru k rows = if is_some (find_value k rows) then 1 else 0

-- A query gives the rows that it returns.
unfoldable pub sql_query_single_lru : Str → List Cache → Option Cache
sql_query_single_lru k rows = find_value k rows

-- `ORDER BY sequence ASC`.
abbrev pub older : Cache → Cache → Bool
older a b = ltb a.sequence b.sequence

-- `ORDER BY sequence DESC`.
abbrev pub newer : Cache → Cache → Bool
newer a b = ltb b.sequence a.sequence

unfoldable pub sql_query_old_lru : List Cache → Option Cache
sql_query_old_lru rows = first older rows

unfoldable pub sql_query_new_lru : List Cache → Option Cache
sql_query_new_lru rows = first newer rows

unfoldable pub sql_query_all_lru : List Cache → List Cache
sql_query_all_lru rows = order_by older rows

-- `DELETE ... RETURNING` gives the row that it deletes.
unfoldable pub sql_delete_single_lru : Str → List Cache → Option Cache × List Cache
sql_delete_single_lru k rows = (find_value k rows, remove_value k rows)

abbrev pub delete_found : Option Cache → List Cache → Option Cache × List Cache
delete_found none rows = (none, rows)
delete_found (some r) rows = (some r, remove_value r.key rows)

unfoldable pub sql_delete_old_lru : List Cache → Option Cache × List Cache
sql_delete_old_lru rows = delete_found (first older rows) rows

-- `UPDATE metaLRU ... WHERE id = 1`, `INSERT INTO metaLRU` and the query of its row.
unfoldable pub sql_update_metalru : Meta → Option Meta → ℕ × Option Meta
sql_update_metalru m none = (0, none)
sql_update_metalru m (some _) = (1, some m)

unfoldable pub sql_insert_metalru : Meta → Option Meta → Option (Option Meta)
sql_insert_metalru m none = some (some m)
sql_insert_metalru m (some _) = none

-- What `query_single` returns where there is no row.
abbrev pub no_cache : Cache
no_cache = record { key = []; size = 0; download_time = 0; hash = []; sequence = 0 }

abbrev pub no_meta : Meta
no_meta = record { cache_size = 0; max_size = 0; sequence = 0 }

abbrev pub row_or_default : Option Cache → Cache
row_or_default none = no_cache
row_or_default (some r) = r

abbrev pub meta_or_default : Option Meta → Meta
meta_or_default none = no_meta
meta_or_default (some m) = m
