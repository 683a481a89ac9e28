-- ===== src/Examples/Queries.antt =====
-- Runs of the queries of src/sqlite/sqlite_base.h, and their theorems at concrete answers.
use x_cache_manager.Prelude.{List, ℕ, ◌≡◌, refl, true, [], ◌∷◌, if◌then◌else◌}
use x_cache_manager.Sqlite.Access
use x_cache_manager.Sqlite.Access.{
  Statement, row, done, failed, ok, sqlite_error, execute_failed, execute, query_single,
  query_count, query_multi,
}
use x_cache_manager.Sqlite.Access.Rows.{good, single, queries-run, finalized_once}

-- A run that breaks off after its first row.
abbrev broken : Statement ℕ
broken = record { prepares = true; steps = row 5 ∷ failed ∷ []; finalizes = true; changes = 0 }

broken_off : query_multi broken ≡ (sqlite_error execute_failed, 1)
unfolding query_multi Access.collect Access.checked Access.prepared
broken_off = refl

abbrev rows : List ℕ
rows = 5 ∷ 6 ∷ []

queries-run_example :
    (execute (good 2 rows) ≡ (ok 2, 1))
    × (query_multi (good 2 rows) ≡ (ok rows, 1))
    × (query_single 0 (good 2 rows) ≡ (single 0 rows, 1))
queries-run_example = queries-run 2 0 rows

finalized_once_example :
    ((execute broken).1 ≡ (if broken.prepares then 1 else 0))
    × ((query_multi broken).1 ≡ (if broken.prepares then 1 else 0))
    × ((query_single 0 broken).1 ≡ (if broken.prepares then 1 else 0))
    × ((query_count (λ n. n) broken).1 ≡ (if broken.prepares then 1 else 0))
finalized_once_example = finalized_once 0 (λ n. n) broken
