-- ===== src/Sqlite/Access.antt =====
-- The access to SQLite: src/sqlite/sqlite_base.h and sqlite_base.cpp. The C library is a parameter:
-- what preparing, each step and finalizing a statement answer. A value of a column stands for what
-- `get_row` makes of it, and binding of values is left out, as are the texts of the errors.
pub mod Rows
use x_cache_manager.Prelude.{
  ℕ, zero, suc, Bool, true, false, List, [], ◌∷◌, ◌++◌, Option, none, some, if◌then◌else◌,
}

-- What `sqlite3_step` answers: a row, the end, or an error.
pub data Step (R : Type 0) : Type 0 where
  row : R → Step R
  done : Step R
  failed : Step R

pub data Error : Type 0 where
  prepare_failed execute_failed finalize_failed too_many_entries simple_failed : Error

pub data Result (A : Type 0) : Type 0 where
  ok : A → Result A
  sqlite_error : Error → Result A

-- A prepared statement: the answers of its steps, whether it was prepared, whether the finalizing
-- succeeds, and the count of changes after it. `finals` counts its finalizings.
pub record Statement (R : Type 0) : Type 0 where
  pub prepares : Bool
  pub steps : List (Step R)
  pub finalizes : Bool
  pub changes : ℕ

module _ {R : Type 0} where
  -- The next answer; a run that is started again after its end is taken to end at once.
  abbrev pub answer : List (Step R) → Step R
  answer [] = done
  answer (x ∷ l) = x

  abbrev pub later : List (Step R) → List (Step R)
  later [] = []
  later (x ∷ l) = l

  -- `perror`, which finalizes the statement before it throws. A result carries the number of
  -- finalizings.
  unfoldable pub checked : {A : Type 0} → Step R → Result A × ℕ → Result A × ℕ
  checked failed next = (sqlite_error execute_failed, 1)
  checked done next = next
  checked (row r) next = next

  -- `sqlite3_final`.
  unfoldable pub final : {A : Type 0} → Statement R → Result A → Result A × ℕ
  final stmt result = if stmt.finalizes then (result, 1) else (sqlite_error finalize_failed, 1)

  -- `sqlite3_pre`.
  unfoldable pub prepared : {A : Type 0} → Statement R → Result A × ℕ → Result A × ℕ
  prepared stmt next = if stmt.prepares then next else (sqlite_error prepare_failed, 0)

  -- `while((res = sqlite3_step(stmt)) == SQLITE_ROW);`: the answer that ends the loop.
  unfoldable pub skip_rows : List (Step R) → Step R
  skip_rows [] = done
  skip_rows (row r ∷ l) = skip_rows l
  skip_rows (done ∷ l) = done
  skip_rows (failed ∷ l) = failed

  unfoldable pub execute : Statement R → Result ℕ × ℕ
  execute stmt = prepared stmt (checked (skip_rows stmt.steps) (final stmt (ok stmt.changes)))

  abbrev value_or : {A : Type 0} → A → (R → A) → Step R → A
  value_or d f (row r) = f r
  value_or d f done = d
  value_or d f failed = d

  -- `if(res != SQLITE_DONE)throw`, after the statement is finalized.
  unfoldable pub only : {A : Type 0} → Step R → A → Result A
  only done a = ok a
  only (row r) a = sqlite_error too_many_entries
  only failed a = sqlite_error too_many_entries

  unfoldable pub query_single : R → Statement R → Result R × ℕ
  query_single default stmt =
      let first = answer stmt.steps in
      let second = answer (later stmt.steps) in
      prepared stmt (
        checked first (checked second (final stmt (only second (value_or default (λ r. r) first)))))

  -- `column` is `sqlite3_column_int(stmt, 0)`.
  unfoldable pub query_count : (R → ℕ) → Statement R → Result ℕ × ℕ
  query_count column stmt =
      let first = answer stmt.steps in
      let second = answer (later stmt.steps) in
      prepared stmt
        (checked first (checked second (final stmt (only second (value_or 0 column first)))))

  -- The loop of `query_multi`: the rows, and the answer that ends it.
  unfoldable pub collect : List R → List (Step R) → List R × Step R
  collect results [] = (results, done)
  collect results (row r ∷ l) = collect (results ++ r ∷ []) l
  collect results (done ∷ l) = (results, done)
  collect results (failed ∷ l) = (results, failed)

  unfoldable pub query_multi : Statement R → Result (List R) × ℕ
  query_multi stmt =
      let (results, res) = collect [] stmt.steps in
      prepared stmt (checked res (final stmt (ok results)))

-- `sqlite3_exec` of a text without parameters.
unfoldable pub execute_simple : Bool → ℕ → Result ℕ
execute_simple executes changes = if executes then ok changes else sqlite_error simple_failed

-- -1 stands as `none`.
unfoldable pub execute_noexcept : Bool → ℕ → Option ℕ
execute_noexcept executes changes = if executes then some changes else none
