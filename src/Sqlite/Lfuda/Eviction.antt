-- ===== src/Sqlite/Lfuda/Eviction.antt =====
-- The loop of `remove_cache` of src/algo/algo_lfuda_sqlite.cpp, and the rows that it takes.
use mathlib.Core.List.{append-nil, append_assoc}
use x_cache_manager.Prelude.{
  ℕ, zero, suc, ◌+◌, ◌≡◌, ◌≤◌, ◌<◌, refl, sym, ap, ◌∙◌, Bool, true, false, ◌||◌, none, some, List,
  [], ◌∷◌, ◌++◌, arith, Str, str_eq, if◌then◌else◌, is_empty, length, Bool-cases, Option-cases, inl,
  inr, returns, throws,
}
use x_cache_manager.Container.Nodes.{total}
use x_cache_manager.Container.Values.{find_value, remove_value}
use x_cache_manager.Sqlite.Table.{All, first, first-none, All-find_value, length-remove_value}
use x_cache_manager.Sqlite.Ends.{Ends-bind, Ends-mono, Ends-returns, Ends-throws}
use x_cache_manager.Sqlite.LfudaStatements.{Cache, cache_entry, worse, sql_delete_worst_lfuda}
use x_cache_manager.Sqlite.Lfuda.{
  Lfuda, evict, over_limit, after_delete, age, shrink, delete_lfuda_old, statement, sqlite_error,
  notify, report, remove_cache, report_all,
}
use x_cache_manager.Sqlite.Lfuda.Invariant.{IsSound, Allowed, Safe}
use x_cache_manager.Sqlite.Lfuda.Rounds.{
  Evicted, among, AllFrom, dropped, first-size, dropped-IsSound, Evicted-none, Evicted-next,
  AllBelow,
}

-- What the loop returns, and the state that it leaves.
abbrev Result : ℕ → Str → List Cache → Bool → Lfuda → List Cache × Bool → Lfuda → Type 0
Result required mark removed flag s (out, seen) t =
    (gone : List Cache) × Evicted s t gone
    × (out ≡ removed ++ gone)
    × (seen ≡ (flag || among mark gone))
    × (t.meta.cache_size + required ≤ t.meta.max_size)

room_of_under_limit :
    (required : ℕ) (s : Lfuda)
    → IsSound s
    → required ≤ s.meta.max_size
    → over_limit required s ≡ false
    → s.meta.cache_size + required ≤ s.meta.max_size
unfolding over_limit
room_of_under_limit required s v room under = ground (arith, v.small, v.max_small)

-- Over the limit there is a row to delete.
nonempty_of_over_limit :
    (required : ℕ) (s : Lfuda)
    → IsSound s
    → required ≤ s.meta.max_size
    → over_limit required s ≡ true
    → first worse s.rows ≡ none
    → ⊥
unfolding over_limit total
nonempty_of_over_limit required s v room over e =
    let none_left = v.accounted ∙ ap total (first-none worse s.rows e) in
    ground (arith, none_left, v.max_small)

-- The callback is called with the rows that went, if any.
abbrev pub reports : List Cache → List (List Cache)
reports [] = []
reports (r ∷ l) = (r ∷ l) ∷ []

-- The state after `remove_cache`, and the rows that went, the worst first.
pub record Gone (required : ℕ) (mark : Str) (s : Lfuda) (flag : Bool) (t : Lfuda) : Type 0 where
  pub gone : List Cache
  pub sound : IsSound t
  pub room : t.meta.cache_size + required ≤ t.meta.max_size
  pub max_size : t.meta.max_size ≡ s.meta.max_size
  pub rises : s.meta.global_aging ≤ t.meta.global_aging
  pub kept : (q : Str) → find_value q t.rows ≡ (if among q gone then none else find_value q s.rows)
  pub bounded :
      (n : ℕ)
      → s.meta.global_aging ≤ n
      → AllBelow n s.rows
      → (t.meta.global_aging ≤ n) × AllBelow n t.rows
  pub worst : All (λ r. AllFrom r t.rows) gone
  pub marked : flag ≡ among mark gone
  pub reported : t.callbacks ≡ s.callbacks ++ reports gone

Gone-none :
    (required : ℕ) (mark : Str) (s : Lfuda)
    → IsSound s
    → s.meta.cache_size + required ≤ s.meta.max_size
    → Gone required mark s false s
unfolding among
Gone-none required mark s v fits = record {
  gone = [];
  sound = v;
  room = fits;
  max_size = refl;
  rises = omega arith;
  bounded = λ n h k. (h, k);
  kept = λ q. refl;
  worst = tt;
  marked = refl;
  reported = sym (append-nil s.callbacks);
}

callbacks-IsSound :
    (s : Lfuda) (cbs : List (List Cache)) → IsSound s → IsSound (record s { callbacks = cbs })
callbacks-IsSound s cbs v = record {
  keys = v.keys;
  named = v.named;
  aged = v.aged;
  accounted = v.accounted;
  small = v.small;
  max_small = v.max_small;
}

notify-reports :
    (gone : List Cache) (t : Lfuda)
    → notify gone t ≡ record t { callbacks = t.callbacks ++ reports gone }
unfolding notify report
notify-reports [] t = λ i. record t { callbacks = sym (append-nil t.callbacks) i }
notify-reports (r ∷ l) t = refl

Gone-Evicted :
    (required : ℕ) (mark : Str) (s t : Lfuda) (gone : List Cache) (flag : Bool)
    → Evicted s t gone
    → flag ≡ among mark gone
    → t.meta.cache_size + required ≤ t.meta.max_size
    → Gone required mark s flag (notify gone t)
Gone-Evicted required mark s t gone flag h seen fits = rw (notify-reports gone t) (record {
  gone = gone;
  sound = callbacks-IsSound t _ h.sound;
  room = fits;
  max_size = h.max_size;
  rises = h.rises;
  bounded = h.bounded;
  kept = h.kept;
  worst = h.worst;
  marked = seen;
  reported = ap (λ l. l ++ reports gone) h.callbacks;
})

module _ (fails : ℕ → Bool) where
  delete_lfuda_old_good :
      (s : Lfuda) (m : Cache)
      → fails s.clock ≡ false
      → first worse s.rows ≡ some m
      → delete_lfuda_old fails s
        ≡ returns m (record s { clock = suc s.clock; rows = remove_value m.key s.rows })
  unfolding delete_lfuda_old statement sql_delete_worst_lfuda
  delete_lfuda_old_good s m good e =
      rw (good, e, delete_lfuda_old, statement, sql_delete_worst_lfuda) refl

  delete_lfuda_old_bad :
      (s : Lfuda)
      → fails s.clock ≡ true
      → delete_lfuda_old fails s ≡ throws sqlite_error (record s { clock = suc s.clock })
  unfolding delete_lfuda_old statement
  delete_lfuda_old_bad s bad = rw (bad, delete_lfuda_old, statement) refl

  after_delete_good :
      (removed : List Cache) (s : Lfuda) (m : Cache)
      → IsSound s
      → first worse s.rows ≡ some m
      → after_delete fails removed m
          (record s { clock = suc s.clock; rows = remove_value m.key s.rows })
        ≡ returns tt (dropped m s)
  unfolding after_delete
  after_delete_good removed s m v e =
      let (here, sum) = first-size s m v e in
      ground (
        arith,
        sum,
        All-find_value (λ (r : Cache). is_empty r.key ≡ false) m.key m s.rows v.named here,
      )

  Result-next :
      (required : ℕ) (mark : Str) (removed : List Cache) (flag : Bool) (s t : Lfuda) (m : Cache)
      (a : List Cache × Bool)
      → IsSound s
      → first worse s.rows ≡ some m
      → Result required mark (removed ++ m ∷ []) (flag || str_eq m.key mark) (dropped m s) a t
      → Result required mark removed flag s a t
  unfolding among
  Result-next required mark removed flag s t m (out, seen) v e (gone, h, eq, seen_eq, fits) = (
    m ∷ gone,
    Evicted-next s t m gone v e h,
    eq ∙ append_assoc removed (m ∷ []) gone,
    seen_eq ∙ or_assoc flag (str_eq m.key mark) (among mark gone),
    fits,
  )
    where
      or_assoc : (a b c : Bool) → ((a || b) || c) ≡ (a || (b || c))
      or_assoc true b c = refl
      or_assoc false b c = refl

  evict-Safe :
      (fuel required : ℕ) (mark : Str) (removed : List Cache) (flag : Bool) (s : Lfuda)
      → length s.rows < fuel
      → required ≤ s.meta.max_size
      → IsSound s
      → Safe fails
          (Result required mark removed flag s)
          (evict fails fuel required mark removed flag s)
  unfolding evict shrink age among
  evict-Safe zero required mark removed flag s enough room v = absurd (omega arith)
  evict-Safe (suc fuel) required mark removed flag s enough room v =
      elim (Bool-cases (over_limit required s)) [
        | inl over ↦ elim (Option-cases (first worse s.rows)) [
          | inl e ↦ absurd (nonempty_of_over_limit required s v room over e)
          | inr (m, e) ↦ elim (Bool-cases (fails s.clock)) [
            | inl bad ↦
                rw (over, evict)
                  (Ends-throws (Allowed fails) (Result required mark removed flag s)
                    (delete_lfuda_old fails) _ s _ sqlite_error (delete_lfuda_old_bad s bad)
                    (s.clock, bad))
            | inr good ↦
                rw (over, evict)
                  (Ends-returns (Allowed fails) (Result required mark removed flag s)
                    (delete_lfuda_old fails) _ s _ m (delete_lfuda_old_good s m good e)
                    (Ends-returns (Allowed fails) (Result required mark removed flag s)
                      (after_delete fails removed m) _ _ (dropped m s) tt
                      (after_delete_good removed s m v e)
                      (Ends-mono (Allowed fails) _ (Result required mark removed flag s) _
                        (λ a t h. Result-next required mark removed flag s t m a v e h)
                        (evict-Safe fuel required mark (removed ++ m ∷ [])
                          (flag || str_eq m.key mark) (dropped m s)
                          (omega (
                            arith,
                            enough,
                            length-remove_value m.key m s.rows (first-size s m v e).0,
                          ))
                          room (dropped-IsSound s m v e)))))
          ]
        ]
        | inr under ↦
            rw (under, evict)
              (
                [],
                Evicted-none s v,
                sym (append-nil removed),
                or_false flag,
                room_of_under_limit required s v room under,
              )
      ]
    where
      or_false : (a : Bool) → a ≡ (a || false)
      or_false true = refl
      or_false false = refl

  report_all-Gone :
      (required : ℕ) (mark : Str) (s t : Lfuda) (a : List Cache × Bool)
      → Result required mark [] false s a t
      → Safe fails (Gone required mark s) (report_all fails a t)
  unfolding report_all
  report_all-Gone required mark s t (out, seen) (gone, h, eq, seen_eq, fits) =
      rw eq (Gone-Evicted required mark s t gone seen h seen_eq fits)

  pub lfuda_remove_cache-Evicted :
      (required : ℕ) (mark : Str) (s : Lfuda)
      → required ≤ s.meta.max_size
      → IsSound s
      → Safe fails (Gone required mark s) (remove_cache fails required mark s)
  unfolding remove_cache report_all notify report
  lfuda_remove_cache-Evicted required mark s room v = elim (Bool-cases (over_limit required s)) [
    | inl over ↦
        rw (over, remove_cache)
          (Ends-bind (Allowed fails) (Result required mark [] false s) (Gone required mark s) _
            (report_all fails) s
            (evict-Safe (suc (length s.rows)) required mark [] false s (omega arith) room v)
            (λ a t h. report_all-Gone required mark s t a h))
    | inr under ↦
        rw (under, remove_cache)
          (Gone-none required mark s v (room_of_under_limit required s v room under))
  ]
