-- ===== src/Sqlite/Lru/Lookups.antt =====
-- The tests and the lookup with which the operations of the LRU cache over SQLite begin.
use x_cache_manager.Prelude.{
  ℕ, suc, ◌≡◌, ◌≤◌, refl, Bool, false, ◌||◌, none, some, arith, Str, ltb, ◌==◌, is_empty,
  Bool-cases, Option-cases, inl, inr, ◌>>=◌, ◌>>◌,
}
use x_cache_manager.Container.Values.{find_value}
use x_cache_manager.Sqlite.Table.{All-find_value}
use x_cache_manager.Sqlite.Ends.{Ends-returns, Ends-throws}
use x_cache_manager.Sqlite.LruStatements.{
  Cache, cache_entry, sql_query_single_lru, row_or_default, no_cache,
}
use x_cache_manager.Sqlite.Lru
use x_cache_manager.Sqlite.Lru.{Lru, Error, M, bad_size}
use x_cache_manager.Sqlite.Lru.Invariant.{IsValid, Safe, Allowed, statement-Safe, frame-IsValid}

module _ (fails : ℕ → Bool) where
  pub refused-Safe :
      {B : Type 0} (Q : B → Lru → Type 0) (size : ℕ) (f : M B) (s : Lru)
      → IsValid s
      → (size ≤ s.meta.max_size → Safe fails Q (f s))
      → Safe fails Q ((Lru.check_size fails size >> f) s)
  unfolding Lru.check_size
  refused-Safe Q size f s v h = elim (Bool-cases (size == 0 || ltb s.meta.max_size size)) [
    | inl bad ↦
        Ends-throws (Allowed fails) Q (Lru.check_size fails size) (λ _. f) s s bad_size
          (rw (bad, Lru.check_size) refl) v
    | inr good ↦
        Ends-returns (Allowed fails) Q (Lru.check_size fails size) (λ _. f) s s tt
          (rw (good, Lru.check_size) refl) (h (ground (arith, good)))
  ]

  pub found-Safe :
      {B : Type 0} (Q : B → Lru → Type 0) (key : Str) (f : Cache → M B) (s : Lru)
      → IsValid s
      → is_empty key ≡ false
      → (IsValid (record s { clock = suc s.clock })
          → find_value key s.rows ≡ none
          → Safe fails Q (f no_cache (record s { clock = suc s.clock })))
      → ((r : Cache)
          → IsValid (record s { clock = suc s.clock })
          → find_value key s.rows ≡ some r
          → is_empty r.key ≡ false
          → Safe fails Q (f r (record s { clock = suc s.clock })))
      → Safe fails Q ((Lru.query_lru_single fails key >>= f) s)
  unfolding Lru.query_lru_single sql_query_single_lru
  found-Safe Q key f s v named absent present =
      let w = frame-IsValid s (record s { clock = suc s.clock }) refl refl v in
      statement-Safe fails Q _ f s (row_or_default (find_value key s.rows)) s.rows refl
        (elim (Option-cases (find_value key s.rows)) [
          | inl e ↦ rw e (absent w e)
          | inr (r, e) ↦ rw e (
              present r w e (
                All-find_value (λ (c : Cache). is_empty c.key ≡ false) key r s.rows v.sound.named
                  e))
        ])
