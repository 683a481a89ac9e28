-- ===== src/Lru/Eviction.antt =====
-- The eviction loop against its specification: the longest run of recent entries that leaves room.
use mathlib.Core.List.{reverse, reverse-append, append_assoc, append-nil, map-append, reverse-cons}
use x_cache_manager.Prelude.{
  ℕ, zero, suc, ◌+◌, ◌-◌, ◌≡◌, ◌<◌, ◌≤◌, ◌⊎◌, inl, inr, refl, sym, ap, ◌∙◌, true, some, List, [],
  ◌∷◌, ◌++◌, arith, if◌then◌else◌, ltb, length, last?, drop_last, half64, Bool-cases, Option-cases,
  drop_last-append, last?-eq-none, length-drop_last, false, ltb→le, ltb→lt, is_empty,
}
use x_cache_manager.Container.Nodes.{Node, values, total}
use x_cache_manager.Container.Removal.{total-append}
use x_cache_manager.Lru.{
  Cache, cache_entry, Lru, drop_oldest, over_limit, evict, notify, remove_cache,
}
use x_cache_manager.Lru.Invariant.{IsValid, drop_oldest-IsValid, callbacks-IsValid}

-- The longest prefix whose sizes add up to at most the budget.
unfoldable pub keep : ℕ → List Cache → List Cache
keep budget [] = []
keep budget (c ∷ l) =
    let rest = keep (budget - c.size) l in if ltb budget c.size then [] else c ∷ rest

-- What stays when `required` more bytes must fit under the limit.
unfoldable pub keep_within : ℕ → ℕ → List Cache → List Cache
keep_within limit required l = if ltb limit required then [] else keep (limit - required) l

-- The next entry does not fit.
abbrev Tight : ℕ → ℕ → List (Node Cache) → Type 0
Tight limit used [] = Unit {0}
Tight limit used (n ∷ q) = limit < used + n.value.size

total_nil-le : (n : ℕ) → total {A = Cache} [] ≤ n
unfolding total
total_nil-le n = omega arith

keep_unique :
    (budget : ℕ) (p : List Cache) (q : List (Node Cache))
    → total p ≤ budget
    → Tight budget (total p) q
    → keep budget (p ++ values q) ≡ p
unfolding keep total
keep_unique budget [] [] h t = refl
keep_unique budget [] (c ∷ q) h t = ground arith
keep_unique budget (c ∷ p) [] h t =
    ground (arith, keep_unique (budget - c.size) p [] (omega arith) tt)
keep_unique budget (c ∷ p) (d ∷ q) h t =
    ground (arith, keep_unique (budget - c.size) p (d ∷ q) (omega arith) (omega arith))

-- The state after the loop, and the entries that it took off, oldest last.
record Evicts (required : ℕ) (s t : Lru) (q : List (Node Cache)) : Type 0 where
  valid : IsValid t
  split : s.cache_list ≡ t.cache_list ++ q
  tight : Tight s.max_size (t.cache_size + required) q
  ends : (t.cache_list ≡ []) ⊎ (t.cache_size + required ≤ s.max_size)
  max_size : t.max_size ≡ s.max_size
  next_addr : t.next_addr ≡ s.next_addr
  callbacks : t.callbacks ≡ s.callbacks

Tight-append :
    (limit used : ℕ) (q : List (Node Cache)) (c : Node Cache)
    → Tight limit used q
    → (q ≡ [] → limit < used + c.value.size)
    → Tight limit used (q ++ c ∷ [])
Tight-append limit used [] c t h = h refl
Tight-append limit used (d ∷ q) c t h = t

values-last :
    (l : List (Node Cache)) (n : Node Cache)
    → last? l ≡ some n
    → values l ≡ values (drop_last l) ++ n.value ∷ []
values-last l n e =
    sym (ap values (drop_last-append l n e)) ∙ map-append (λ m. m.value) (drop_last l) (n ∷ [])

-- One more round before the loop.
Evicts-next :
    (required : ℕ) (s t : Lru) (n : Node Cache) (q : List (Node Cache))
    → required < half64
    → IsValid s
    → last? s.cache_list ≡ some n
    → over_limit required s ≡ true
    → Evicts required (drop_oldest n.value s) t q
    → Evicts required s t (q ++ n ∷ [])
unfolding drop_oldest over_limit total
Evicts-next required s t n q small v e over step = record {
  valid = step.valid;
  split =
      sym (drop_last-append s.cache_list n e)
      ∙ ap (λ l. l ++ n ∷ []) step.split
      ∙ append_assoc t.cache_list q (n ∷ []);
  tight = Tight-append s.max_size (t.cache_size + required) q n step.tight (λ none_left. ground (
    arith,
    over,
    v.accounted,
    v.small,
    step.valid.accounted,
    ap total (values-last s.cache_list n e),
    total-append (values (drop_last s.cache_list)) (n.value ∷ []),
    ap (λ l. total (values l)) step.split,
    map-append (λ (m : Node Cache). m.value) t.cache_list q,
    total-append (values t.cache_list) (values q),
  ));
  ends = step.ends;
  max_size = step.max_size;
  next_addr = step.next_addr;
  callbacks = step.callbacks;
}

Evicts-none :
    (required : ℕ) (s : Lru)
    → IsValid s
    → (s.cache_list ≡ []) ⊎ (s.cache_size + required ≤ s.max_size)
    → Evicts required s s []
Evicts-none required s v ends = record {
  valid = v;
  split = sym (append-nil s.cache_list);
  tight = tt;
  ends = ends;
  max_size = refl;
  next_addr = refl;
  callbacks = refl;
}

fits_of_under_limit :
    (required : ℕ) (s : Lru)
    → required < half64
    → IsValid s
    → over_limit required s ≡ false
    → s.cache_size + required ≤ s.max_size
unfolding over_limit
fits_of_under_limit required s small v under = ground (arith, v.small)

length-drop_oldest-le :
    (fuel : ℕ) (s : Lru) (n : Node Cache)
    → last? s.cache_list ≡ some n
    → length s.cache_list ≤ suc fuel
    → length (drop_oldest n.value s).cache_list ≤ fuel
unfolding drop_oldest
length-drop_oldest-le fuel s n e h = omega (arith, length-drop_last s.cache_list n e)

reverse-values-append :
    (q : List (Node Cache)) (n : Node Cache)
    → reverse (values (q ++ n ∷ [])) ≡ n.value ∷ reverse (values q)
reverse-values-append q n =
    ap reverse (map-append (λ m. m.value) q (n ∷ [])) ∙ reverse-append (values q) (n.value ∷ [])

evict-Evicts :
    (fuel required : ℕ) (removed : List Cache) (s : Lru)
    → length s.cache_list ≤ fuel
    → required < half64
    → IsValid s
    → (q : List (Node Cache)) × Evicts required s (evict fuel required removed s).0 q
      × ((evict fuel required removed s).1 ≡ removed ++ reverse (values q))
unfolding evict
evict-Evicts zero required removed s enough small v =
    ([], Evicts-none required s v (inl (ground arith)), sym (append-nil removed))
evict-Evicts (suc fuel) required removed s enough small v =
    elim (Option-cases (last? s.cache_list)) [
      | inl e ↦
          rw (e, evict)
            (
              [],
              Evicts-none required s v (inl (last?-eq-none s.cache_list e)),
              sym (append-nil removed),
            )
      | inr (n, e) ↦ elim (Bool-cases (over_limit required s)) [
        | inl over ↦
            let (q, step, out) =
              evict-Evicts fuel required (removed ++ n.value ∷ []) (drop_oldest n.value s)
                (length-drop_oldest-le fuel s n e enough) small (drop_oldest-IsValid s n v e) in
            rw (e, over, evict)
              (
                q ++ n ∷ [],
                Evicts-next required s
                    (evict fuel required (removed ++ n.value ∷ []) (drop_oldest n.value s)).0 n q
                    small v e over step,
                out
                    ∙ append_assoc removed (n.value ∷ []) (reverse (values q))
                    ∙ ap (◌++◌ removed) (sym (reverse-values-append q n)),
              )
        | inr under ↦
            rw (e, under, evict)
              (
                [],
                Evicts-none required s v (inr (fits_of_under_limit required s small v under)),
                sym (append-nil removed),
              )
      ]
    ]

-- What `remove_callback` is called with: the entries taken off, the oldest first.
abbrev pub report : List Cache → List (List Cache)
report [] = []
report (c ∷ q) = reverse (c ∷ q) ∷ []

-- `t` is what `s` becomes where room for `required` more bytes was made.
pub record HasRoom (required : ℕ) (s t : Lru) : Type 0 where
  pub valid : IsValid t
  pub kept : values t.cache_list ≡ keep_within s.max_size required (values s.cache_list)
  pub ends : (t.cache_list ≡ []) ⊎ (t.cache_size + required ≤ s.max_size)
  pub max_size : t.max_size ≡ s.max_size
  pub removed : List (Node Cache)
  pub split : s.cache_list ≡ t.cache_list ++ removed
  pub reported : t.callbacks ≡ s.callbacks ++ report (values removed)

is_empty-append : (l : List Cache) (c : Cache) → is_empty (l ++ c ∷ []) ≡ false
is_empty-append [] c = refl
is_empty-append (d ∷ l) c = refl

notify-report :
    (q : List Cache) (t : Lru)
    → notify (reverse q) t ≡ record t { callbacks = t.callbacks ++ report q }
unfolding notify
notify-report [] t = λ i. record t { callbacks = sym (append-nil t.callbacks) i }
notify-report (c ∷ q) t =
    let full = ap is_empty (reverse-cons c q) ∙ is_empty-append (reverse q) c in rw (full, notify)

Tight-shift :
    (limit required used total : ℕ) (q : List (Node Cache))
    → required ≤ limit
    → used ≡ total
    → Tight limit (used + required) q
    → Tight (limit - required) total q
Tight-shift limit required used total [] h e t = tt
Tight-shift limit required used total (c ∷ q) h e t = omega arith

keep_within-Evicts :
    (required : ℕ) (s t : Lru) (q : List (Node Cache))
    → Evicts required s t q
    → values t.cache_list ≡ keep_within s.max_size required (values s.cache_list)
unfolding keep_within
keep_within-Evicts required s t q step = elim (Bool-cases (ltb s.max_size required)) [
  | inl over ↦ rw over (none_left step.ends over)
  | inr room ↦
      rw (room, step.split, map-append)
        (sym (
          keep_unique (s.max_size - required) (values t.cache_list) q (within step.ends room) (
            Tight-shift s.max_size required t.cache_size (total (values t.cache_list)) q
              (ltb→le _ _ room) step.valid.accounted step.tight)))
]
  where
    none_left :
        (t.cache_list ≡ []) ⊎ (t.cache_size + required ≤ s.max_size)
        → ltb s.max_size required ≡ true
        → values t.cache_list ≡ []
    none_left (inl e) over = ap values e
    none_left (inr e) over = absurd (omega (arith, ltb→lt s.max_size required over))

    within :
        (t.cache_list ≡ []) ⊎ (t.cache_size + required ≤ s.max_size)
        → ltb s.max_size required ≡ false
        → total (values t.cache_list) ≤ s.max_size - required
    within (inl e) room = rw e (total_nil-le _)
    within (inr e) room = omega (arith, step.valid.accounted)

-- In a valid state and for fewer than 2^63 required bytes, remove_cache of the in-memory LRU cache
-- keeps the longest run of the most recent entries that leaves the required room, ends with no
-- entry or with that room, reports the others, the oldest first, in one call of the callback (in
-- none if there are none), and keeps the limit and the invariant.
pub remove_cache-HasRoom :
    (required : ℕ) (s : Lru)
    → required < half64
    → IsValid s
    → HasRoom required s (remove_cache required s)
unfolding remove_cache
remove_cache-HasRoom required s small v =
    let (q, step, out) = evict-Evicts (length s.cache_list) required [] s (omega arith) small v in
    let t = (evict (length s.cache_list) required [] s).0 in
    rw (out, notify-report (values q) t)
      (record {
        valid = callbacks-IsValid t _ step.valid;
        kept = keep_within-Evicts required s t q step;
        ends = step.ends;
        max_size = step.max_size;
        removed = q;
        split = step.split;
        reported = ap (λ l. l ++ report (values q)) step.callbacks;
      })
