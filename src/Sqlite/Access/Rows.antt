-- ===== src/Sqlite/Access/Rows.antt =====
-- What the queries return of a statement that gives a list of rows and then ends, and that each
-- statement is finalized once on every path.
use mathlib.Core.List.{append_assoc, append-nil}
use x_cache_manager.Prelude.{
  ℕ, ◌≡◌, refl, sym, ap, ◌∙◌, Bool, true, false, List, [], ◌∷◌, ◌++◌, if◌then◌else◌,
}
use x_cache_manager.Sqlite.Access.{
  Step, row, done, failed, Statement, Result, ok, sqlite_error, too_many_entries, finalize_failed,
  prepare_failed, answer, later, checked, final, prepared, skip_rows, execute, only, query_single,
  query_count, collect, query_multi,
}

module _ {R : Type 0} where
  -- The answers of a run that gives these rows and ends.
  abbrev pub run : List R → List (Step R)
  run [] = done ∷ []
  run (r ∷ l) = row r ∷ run l

  -- A statement that the library prepares, runs and finalizes without an error.
  abbrev pub good : ℕ → List R → Statement R
  good changes rows = record {
    prepares = true;
    steps = run rows;
    finalizes = true;
    changes = changes;
  }

  collect-run : (acc rows : List R) → collect acc (run rows) ≡ (acc ++ rows, done)
  unfolding collect
  collect-run acc [] = λ i. (sym (append-nil acc) i, done)
  collect-run acc (r ∷ l) =
      collect-run (acc ++ r ∷ []) l ∙ (λ i. (append_assoc acc (r ∷ []) l i, done))

  skip_rows-run : (rows : List R) → skip_rows (run rows) ≡ done
  unfolding skip_rows
  skip_rows-run [] = refl
  skip_rows-run (r ∷ l) = skip_rows-run l

  -- The one row of a list, the default where there is none, an error where there are more.
  abbrev pub single : R → List R → Result R
  single default [] = ok default
  single default (r ∷ []) = ok r
  single default (r ∷ q ∷ l) = sqlite_error too_many_entries

  -- For a statement that the C library prepares, runs and finalizes without an error, execute
  -- gives the number of changes, query_multi all rows in their order, and query_single the one
  -- row, the default where there is none, or an error where there are more; each finalizes the
  -- statement once.
  pub queries-run :
      (changes : ℕ) (default : R) (rows : List R)
      → (execute (good changes rows) ≡ (ok changes, 1))
        × (query_multi (good changes rows) ≡ (ok rows, 1))
        × (query_single default (good changes rows) ≡ (single default rows, 1))
  unfolding execute query_multi query_single prepared checked final only
  queries-run changes default rows = (
    ap (λ s. checked s (ok changes, 1)) (skip_rows-run rows),
    ap (λ p. checked p.1 (ok p.0, 1)) (collect-run [] rows),
    once rows,
  )
    where
      once : (rows : List R) → query_single default (good changes rows) ≡ (single default rows, 1)
      once [] = refl
      once (r ∷ []) = refl
      once (r ∷ q ∷ l) = refl

  last : {A : Type 0} (stmt : Statement R) (r : Result A) → (final stmt r).1 ≡ 1
  unfolding final
  last {A} stmt r = go stmt.finalizes
    where
      ended : Bool → Result A × ℕ
      ended b = if b then (r, 1) else (sqlite_error finalize_failed, 1)

      go : (b : Bool) → (ended b).1 ≡ 1
      go true = refl
      go false = refl

  below : {A : Type 0} (s : Step R) (n : Result A × ℕ) → n.1 ≡ 1 → (checked s n).1 ≡ 1
  unfolding checked
  below (row r) n h = h
  below done n h = h
  below failed n h = refl

  top :
      {A : Type 0} (stmt : Statement R) (n : Result A × ℕ)
      → n.1 ≡ 1
      → (prepared stmt n).1 ≡ (if stmt.prepares then 1 else 0)
  unfolding prepared
  top stmt n h = go stmt.prepares
    where
      go : (b : Bool) → (if b then n else (sqlite_error prepare_failed, 0)).1 ≡ (if b then 1 else 0)
      go true = h
      go false = refl

  -- Whatever the C library answers, execute, query_multi, query_single and query_count finalize a
  -- statement that was prepared exactly once, on the error paths too, and never one that was not.
  pub finalized_once :
      (default : R) (column : R → ℕ) (stmt : Statement R)
      → ((execute stmt).1 ≡ (if stmt.prepares then 1 else 0))
        × ((query_multi stmt).1 ≡ (if stmt.prepares then 1 else 0))
        × ((query_single default stmt).1 ≡ (if stmt.prepares then 1 else 0))
        × ((query_count column stmt).1 ≡ (if stmt.prepares then 1 else 0))
  unfolding execute query_multi query_single query_count
  finalized_once default column stmt = (
    top stmt _ (below (skip_rows stmt.steps) _ (last stmt _)),
    top stmt _ (below (collect [] stmt.steps).1 _ (last stmt _)),
    top stmt _ (below (answer stmt.steps) _ (below (answer (later stmt.steps)) _ (last stmt _))),
    top stmt _ (below (answer stmt.steps) _ (below (answer (later stmt.steps)) _ (last stmt _))),
  )
