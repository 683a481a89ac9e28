-- ===== src/Sqlite/Lru/Renewal.antt =====
-- `renew` of the LRU cache over SQLite (src/algo/algo_lru_sqlite.cpp), from a valid state.
use x_cache_manager.Prelude.{
  ℕ, suc, ◌+◌, ◌^◌, ◌≡◌, ◌≤◌, ◌<◌, ◌⊎◌, refl, sym, subst, Bool, true, false, none, some, List, [],
  ◌∷◌, arith, Str, ltb, is_empty, Bool-cases, Option-cases, inl, inr, returns, ◌>>=◌,
}
use x_cache_manager.Container.Values.{find_value, remove_value, replace_value}
use x_cache_manager.Sqlite.Table.{
  All, KeysDistinct-replace_value, All-replace_value, All-find_value, All-remove_value,
  total-replace_value, key_of-find_value,
}
use x_cache_manager.Sqlite.Ends.{Ends-returns}
use x_cache_manager.Sqlite.LruStatements.{Cache, cache_entry, sql_update_seq_lru, sequence_taken}
use x_cache_manager.Sqlite.Lru
use x_cache_manager.Sqlite.Lru.{Lru, Error, M}
use x_cache_manager.Sqlite.Lru.Invariant.{IsValid, Safe, Allowed, statement-Safe, frame-IsValid}

-- The next sequence is free.
pub sequence_taken-All :
    (n : ℕ) (rows : List Cache)
    → All (λ (r : Cache). r.sequence ≤ n) rows
    → sequence_taken (n + 1) rows ≡ false
unfolding sequence_taken
sequence_taken-All n [] h = refl
sequence_taken-All n (r ∷ l) h = ground (arith, h.0, sequence_taken-All n l h.1)

pub All-le_mono :
    (n m : ℕ) (rows : List Cache)
    → n ≤ m
    → All (λ (r : Cache). r.sequence ≤ n) rows
    → All (λ (r : Cache). r.sequence ≤ m) rows
All-le_mono n m [] le h = tt
All-le_mono n m (r ∷ l) le h = (omega (arith, h.0), All-le_mono n m l le h.1)

-- The row is the most recent one.
abbrev pub renewed : Cache → Lru → Lru
renewed r s = record s {
  rows = replace_value (record r { sequence = s.meta.sequence + 1 }) s.rows;
  meta = record s.meta { sequence = s.meta.sequence + 1 };
  clock = suc s.clock;
}

renewed-IsValid :
    (k : Str) (r : Cache) (s : Lru)
    → IsValid s
    → find_value k s.rows ≡ some r
    → IsValid (renewed r s)
renewed-IsValid k r s v here =
    let b : Cache = record r { sequence = s.meta.sequence + 1 } in
    let key = key_of-find_value k r s.rows here in
    let own = subst (λ q. find_value q s.rows ≡ some r) (sym key) here in
    record {
      sound = record {
        keys = KeysDistinct-replace_value b s.rows v.sound.keys;
        named =
            All-replace_value (λ c. is_empty c.key ≡ false) b s.rows
              (All-find_value (λ (c : Cache). is_empty c.key ≡ false) k r s.rows v.sound.named here)
              v.sound.named;
        counted =
            All-replace_value (λ c. c.sequence ≤ s.meta.sequence + 1) b s.rows (omega arith)
              (All-le_mono s.meta.sequence _ s.rows (omega arith) v.sound.counted);
        accounted = omega (arith, v.sound.accounted, total-replace_value b r s.rows own);
        small = v.sound.small;
        max_small = v.sound.max_small;
      };
      within = v.within;
    }

-- Whether the row was there; if so, it is the most recent one, and nothing else has changed.
abbrev pub Renews : Str → Lru → Bool → Lru → Type 0
Renews k s flag t =
    ((flag ≡ false) × (find_value k s.rows ≡ none) × (t ≡ record s { clock = suc s.clock }))
    ⊎ ((r : Cache) × (flag ≡ true) × (find_value k s.rows ≡ some r) × (t ≡ renewed r s))

next_sequence_good :
    (s : Lru) → s.meta.sequence + 1 < 2 ^ 63 → Lru.next_sequence s ≡ returns (s.meta.sequence + 1) s
unfolding Lru.next_sequence
next_sequence_good s h =
    let yes : ltb (s.meta.sequence + 1) (2 ^ 63) ≡ true = ground arith in
    rw (yes, Lru.next_sequence) refl

module _ (fails : ℕ → Bool) where
  -- What comes after `sequence + 1`.
  pub next-Safe :
      {B : Type 0} (Q : B → Lru → Type 0) (f : ℕ → M B) (s : Lru)
      → s.meta.sequence + 1 < 2 ^ 63
      → Safe fails Q (f (s.meta.sequence + 1) s)
      → Safe fails Q ((Lru.next_sequence >>= f) s)
  next-Safe Q f s room h =
      Ends-returns (Allowed fails) Q Lru.next_sequence f s s _ (next_sequence_good s room) h

  -- From a valid state of the LRU cache over SQLite whose sequence is not at its end, renew
  -- returns whether the row is there and gives it the next sequence, with nothing else changed, in
  -- a valid state; it throws only for an empty key or for an error that the engine reported.
  pub renew-Renews :
      (k : Str) (s : Lru)
      → s.meta.sequence + 1 < 2 ^ 63
      → IsValid s
      → Safe fails (λ flag t. IsValid t × Renews k s flag t) (Lru.renew fails k s)
  unfolding Lru.renew Lru.update_lru_seq Lru.count_up sql_update_seq_lru
  renew-Renews k s room v = elim (Bool-cases (is_empty k)) [
    | inl e ↦ rw (e, Lru.renew) v
    | inr e ↦ elim (Option-cases (find_value k s.rows)) [
      | inl gone ↦
          rw (e, Lru.renew)
            (next-Safe (λ flag t. IsValid t × Renews k s flag t) _ s room
              (statement-Safe fails (λ flag t. IsValid t × Renews k s flag t)
                (sql_update_seq_lru (s.meta.sequence + 1) k) _ s 0 s.rows
                (rw (gone, sql_update_seq_lru) refl)
                (
                  frame-IsValid s (record s { clock = suc s.clock }) refl refl v,
                  inl (refl, gone, refl),
                )))
      | inr (r, here) ↦
          rw (e, Lru.renew)
            (next-Safe (λ flag t. IsValid t × Renews k s flag t) _ s room
              (statement-Safe fails (λ flag t. IsValid t × Renews k s flag t)
                (sql_update_seq_lru (s.meta.sequence + 1) k) _ s 1
                (replace_value (record r { sequence = s.meta.sequence + 1 }) s.rows)
                (rw
                  (
                    here,
                    sequence_taken-All s.meta.sequence (remove_value k s.rows) (
                        All-remove_value (λ (c : Cache). c.sequence ≤ s.meta.sequence) k s.rows
                          v.sound.counted),
                    sql_update_seq_lru,
                  )
                  refl)
                (renewed-IsValid k r s v here, inr (r, refl, here, refl))))
    ]
  ]
