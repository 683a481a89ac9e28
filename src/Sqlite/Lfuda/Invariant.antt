-- ===== src/Sqlite/Lfuda/Invariant.antt =====
-- The invariant of the LFU-DA cache over SQLite: keys are distinct and not empty, `global_aging` is at
-- or below every effective frequency, `cache_size` is the sum of the sizes and at most the limit.
use x_cache_manager.Prelude.{
  ℕ, suc, ◌≡◌, ◌≤◌, ◌<◌, refl, sym, ap, ◌∙◌, subst, Bool, true, false, Option, some, List, is_empty,
  half64, Bool-cases, inl, inr, Outcome, ◌>>=◌,
}
use x_cache_manager.Container.Nodes.{total}
use x_cache_manager.Sqlite.Table.{All, KeysDistinct}
use x_cache_manager.Sqlite.Ends.{Ends, Ends-returns, Ends-throws}
use x_cache_manager.Sqlite.LfudaStatements.{Cache, cache_entry, Meta}
use x_cache_manager.Sqlite.Lfuda.{
  Lfuda, Error, sqlite_error, key_null, bad_size, max_size_zero, fatal_logic, size_mismatch,
  size_mismatch_or_empty_key, init_max_size_zero, init_empty_but_size, init_size, statement, M,
}

-- The table and the metadata agree.
pub record IsSound (s : Lfuda) : Type 0 where
  pub keys : KeysDistinct s.rows
  pub named : All (λ r. is_empty r.key ≡ false) s.rows
  pub aged : All (λ r. s.meta.global_aging ≤ r.eff) s.rows
  pub accounted : s.meta.cache_size ≡ total s.rows
  pub small : s.meta.cache_size < half64
  pub max_small : s.meta.max_size < half64

pub record IsValid (s : Lfuda) : Type 0 where
  pub sound : IsSound s
  pub within : s.meta.cache_size ≤ s.meta.max_size

-- The exceptions that a valid state can give: what is wrong with the arguments, in a valid state
-- still, and an error that the engine reported.
abbrev pub Allowed : (ℕ → Bool) → Error → Lfuda → Type 0
Allowed fails sqlite_error s = (n : ℕ) × (fails n ≡ true)
Allowed fails key_null s = IsValid s
Allowed fails bad_size s = IsValid s
Allowed fails max_size_zero s = IsValid s
Allowed fails fatal_logic s = ⊥
Allowed fails size_mismatch s = ⊥
Allowed fails size_mismatch_or_empty_key s = ⊥
Allowed fails init_max_size_zero s = ⊥
Allowed fails init_empty_but_size s = ⊥
Allowed fails init_size s = ⊥

module _ (fails : ℕ → Bool) where
  abbrev pub Safe : {A : Type 0} → (A → Lfuda → Type 0) → Outcome Error Lfuda A → Type 0
  Safe P o = Ends (Allowed fails) P o

  -- A statement that breaks no constraint, and what comes after it.
  pub statement-Safe :
      {A B : Type 0} (Q : B → Lfuda → Type 0) (f : List Cache → Option (A × List Cache))
      (k : A → M B) (s : Lfuda) (a : A) (rows : List Cache)
      → f s.rows ≡ some (a, rows)
      → Safe Q (k a (record s { clock = suc s.clock; rows = rows }))
      → Safe Q ((statement fails f >>= k) s)
  unfolding statement
  statement-Safe Q f k s a rows e h = elim (Bool-cases (fails s.clock)) [
    | inl bad ↦
        Ends-throws (Allowed fails) Q (statement fails f) k s (record s { clock = suc s.clock })
          sqlite_error (rw (bad, statement) refl) (s.clock, bad)
    | inr good ↦
        Ends-returns (Allowed fails) Q (statement fails f) k s
          (record s { clock = suc s.clock; rows = rows }) a (rw (good, e, statement) refl) h
  ]

-- Only the rows and the metadata matter.
pub frame-IsValid : (s t : Lfuda) → t.rows ≡ s.rows → t.meta ≡ s.meta → IsValid s → IsValid t
frame-IsValid s t e m v = record {
  sound = record {
    keys = subst KeysDistinct (sym e) v.sound.keys;
    named = subst (All (λ (r : Cache). is_empty r.key ≡ false)) (sym e) v.sound.named;
    aged =
        subst (λ (d : Meta). All (λ (r : Cache). d.global_aging ≤ r.eff) t.rows) (sym m)
          (subst (All (λ (r : Cache). s.meta.global_aging ≤ r.eff)) (sym e) v.sound.aged);
    accounted = ap (λ (d : Meta). d.cache_size) m ∙ v.sound.accounted ∙ ap total (sym e);
    small = subst (λ (d : Meta). d.cache_size < half64) (sym m) v.sound.small;
    max_small = subst (λ (d : Meta). d.max_size < half64) (sym m) v.sound.max_small;
  };
  within = subst (λ (d : Meta). d.cache_size ≤ d.max_size) (sym m) v.within;
}
