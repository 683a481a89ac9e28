-- ===== src/Sqlite/Lru/Update.antt =====
-- `update` and `resize` of the LRU cache over SQLite, from a valid state.
use x_cache_manager.Prelude.{ℕ, ◌≡◌, ◌<◌, Bool, [], arith, ◌==◌, half64, Bool-cases, inl, inr}
use x_cache_manager.Sqlite.Ends.{Ends-bind}
use x_cache_manager.Sqlite.LruStatements.{cache_entry}
use x_cache_manager.Sqlite.Lru
use x_cache_manager.Sqlite.Lru.{Lru, Error, M, bad_size}
use x_cache_manager.Sqlite.Lru.Invariant.{IsValid, Safe, Allowed}
use x_cache_manager.Sqlite.Lru.Eviction.{Gone, remove_cache-Evicted}

module _ (fails : ℕ → Bool) where
  -- From a valid state of the LRU cache over SQLite, resize to a number below 2^63 throws only for
  -- the limit 0, in a valid state, or for an error that the engine reported; otherwise it returns
  -- in a valid state within the new limit.
  resize-IsValid :
      (n : ℕ) (s : Lru)
      → n < half64
      → IsValid s
      → Safe fails (λ _ t. IsValid t × (t.meta.max_size ≡ n)) (Lru.resize fails n s)
  unfolding Lru.resize
  resize-IsValid n s small v = elim (Bool-cases (n == 0)) [
    | inl e ↦ rw (e, Lru.resize) v
    | inr e ↦
        rw (e, Lru.resize)
          (Ends-bind (Allowed fails)
            (Gone 0 [] (record s { meta = record s.meta { max_size = n } }))
            (λ _ t. IsValid t × (t.meta.max_size ≡ n)) _ _
            (record s { meta = record s.meta { max_size = n } })
            (remove_cache-Evicted fails 0 [] (record s { meta = record s.meta { max_size = n } })
              (omega arith)
              (record {
                keys = v.sound.keys;
                named = v.sound.named;
                counted = v.sound.counted;
                accounted = v.sound.accounted;
                small = v.sound.small;
                max_small = small;
              }))
            (λ flag t g. (record { sound = g.sound; within = omega (arith, g.room) }, g.max_size)))
  ]
