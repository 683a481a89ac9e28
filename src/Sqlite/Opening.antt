-- ===== src/Sqlite/Opening.antt =====
-- Opening a database: the constructor of src/sqlite/sqlite_base.cpp with `open`, the constructors of
-- SQLiteLRU (src/db_adapter/db_sqlite_lru.h) and SQLiteLFUDA (db_sqlite_lfuda.h), and the statements
-- CREATE and CHECK of src/sqlite/sql_statement.h. A file stands as the names that its
-- `sqlite_master` lists. `fails n` says whether the engine reports an error at its n-th call.
pub mod Statements
pub mod Openings
use x_cache_manager.Prelude.{
  ℕ, zero, suc, Bool, true, false, ◌||◌, not, List, [], ◌∷◌, ◌++◌, Option, none, some, Str, str_eq,
  ◌==◌, if◌then◌else◌, is_some, last?, Outcome, Exec, returns, throws, undefined, ◌>>=◌, ◌>>◌, pure,
  raise,
}

-- The tables and indices of the two caches.
pub data Name : Type 0 where
  cache_lru meta_lru index_lru cache_lfuda meta_lfuda index_lfuda : Name

abbrev pub code : Name → ℕ
code cache_lru = 0
code meta_lru = 1
code index_lru = 2
code cache_lfuda = 3
code meta_lfuda = 4
code index_lfuda = 5

abbrev pub Schema : Type 0
Schema = List Name

unfoldable pub lists : Schema → Name → Bool
lists [] name = false
lists (n ∷ schema) name = code n == code name || lists schema name

pub data Error : Type 0 where
  no_directory open_failed simple_failed : Error

-- The files, by their paths, and the number of calls of the engine.
pub record Disk : Type 0 where
  pub files : Str → Option Schema
  pub clock : ℕ

abbrev pub M : Type 0 → Type 0
M A = Exec Error Disk A

abbrev pub ticked : Disk → Disk
ticked s = record s { clock = suc s.clock }

-- A file that is not there, as an empty database.
abbrev pub schema_or_empty : Option Schema → Schema
schema_or_empty none = []
schema_or_empty (some schema) = schema

abbrev pub written : Str → Schema → Disk → Disk
written path schema s = record s { files = λ p. if str_eq p path then some schema else s.files p }

-- `CREATE TABLE`, which fails where the table is there.
unfoldable pub sql_create : Name → Schema → Option Schema
sql_create name schema = if lists schema name then none else some (name ∷ schema)

-- `CREATE INDEX IF NOT EXISTS`, which needs the table.
unfoldable pub sql_create_index : Name → Name → Schema → Option Schema
sql_create_index table name schema =
    if not (lists schema table)
    then none
    else if lists schema name
    then some schema
    else some (name ∷ schema)

abbrev pub slash : ℕ
slash = 47

-- `work_dir.back() == '/' ? work_dir : work_dir + '/'`, and the name.
unfoldable pub path_of : Str → Str → Option Str
path_of work_dir db_name = elim (last? work_dir) [
  | none ↦ none
  | some c ↦ some ((if c == slash then work_dir else work_dir ++ slash ∷ []) ++ db_name)
]

-- `SQLiteBase::SQLiteBase`: the path of the database.
unfoldable pub construct : (Str → Bool) → Str → Str → M Str
construct is_directory work_dir db_name s =
    if not (is_directory work_dir)
    then throws no_directory s
    else elim (path_of work_dir db_name) [ none ↦ undefined | some path ↦ returns path s ]

module _ (fails : ℕ → Bool) where
  -- Whether the file was there. A new one is written with the first change.
  unfoldable pub open_db : Str → M Bool
  open_db path s =
      if fails s.clock
      then throws open_failed (ticked s)
      else returns (is_some (s.files path)) (ticked s)

  -- `execute`, `sqlite3_exec` of a text that changes the database.
  unfoldable pub execute : Str → (Schema → Option Schema) → M (Unit {0})
  execute path f s =
      if fails s.clock
      then throws simple_failed (ticked s)
      else elim (f (schema_or_empty (s.files path))) [
        | none ↦ throws simple_failed (ticked s)
        | some schema ↦ returns tt (written path schema (ticked s))
      ]

  -- `execute` of a `SELECT` from `sqlite_master`: no row is not an error.
  unfoldable pub check : M (Unit {0})
  check s = if fails s.clock then throws simple_failed (ticked s) else returns tt (ticked s)

  -- The branches on `is_new` of the constructors, with the names of the statements.
  unfoldable pub tables : Name → Name → Str → Bool → M (Unit {0})
  tables cache meta path true = check >> check
  tables cache meta path false = execute path (sql_create cache) >> execute path (sql_create meta)

  -- The constructors on an open path: whether the database is new.
  unfoldable pub prepare : Name → Name → Name → Str → M Bool
  prepare cache meta index path = do
    exists ← open_db path
    tables cache meta path exists
    execute path (sql_create_index cache index)
    pure (not exists)

  unfoldable pub sqlite_lru : (Str → Bool) → Str → Str → M Bool
  sqlite_lru is_directory work_dir db_name =
      construct is_directory work_dir db_name >>= prepare cache_lru meta_lru index_lru

  unfoldable pub sqlite_lfuda : (Str → Bool) → Str → Str → M Bool
  sqlite_lfuda is_directory work_dir db_name =
      construct is_directory work_dir db_name >>= prepare cache_lfuda meta_lfuda index_lfuda
