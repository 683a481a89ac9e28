-- ===== src/Lfuda/Eviction.antt =====
-- The eviction loop of the LFU-DA cache, against lists.
use mathlib.Core.List.{append-nil, append_assoc}
use x_cache_manager.Prelude.{
  ℕ, ◌+◌, ◌≡◌, ◌<◌, ◌≤◌, ◌⊎◌, inl, inr, refl, sym, ap, ◌∙◌, false, true, none, some, List, [], ◌∷◌,
  ◌++◌, arith, Str, half64, if◌then◌else◌, ltb, Bool-cases, returns,
}
use x_cache_manager.Container.Nodes.{Node, values, deref, find_key, total, Distinct, find_key-deref}
use x_cache_manager.Container.Values.{find_value, find_value-values}
use x_cache_manager.Lfuda.{
  Cache, cache_entry, Lfuda, drop_worst, over_limit, evict, notify, remove_cache,
}
use x_cache_manager.Lfuda.Invariant.{
  IsValid, is_empty-cache_map, drop_worst-IsValid, callbacks-IsValid,
}

-- The longest part of an ordered list, from its end, that leaves the required room.
unfoldable pub kept : ℕ → ℕ → List Cache → List Cache
kept limit required [] = []
kept limit required (c ∷ l) =
    let rest = kept limit required l in if ltb limit (total (c ∷ l) + required) then rest else c ∷ l

-- The entries before that part.
unfoldable pub dropped : ℕ → ℕ → List Cache → List Cache
dropped limit required [] = []
dropped limit required (c ∷ l) =
    let rest = dropped limit required l in
    if ltb limit (total (c ∷ l) + required) then c ∷ rest else []

-- The age that remains: the effective frequency of the last entry that went.
unfoldable pub last_eff : ℕ → List Cache → ℕ
last_eff age [] = age
last_eff age (c ∷ l) = last_eff c.eff l

-- What `remove_callback` is called with.
abbrev pub report : List Cache → List (List Cache)
report [] = []
report (c ∷ q) = (c ∷ q) ∷ []

-- `t` is what `s` becomes where room for `required` more bytes was made.
pub record HasRoom (required : ℕ) (s t : Lfuda) : Type 0 where
  pub valid : IsValid t
  pub entries : values t.cache_bst ≡ kept s.max_size required (values s.cache_bst)
  pub aging : t.aging ≡ last_eff s.aging (dropped s.max_size required (values s.cache_bst))
  pub ends : (t.cache_bst ≡ []) ⊎ (t.cache_size + required ≤ s.max_size)
  pub max_size : t.max_size ≡ s.max_size
  pub removed : List (Node Cache)
  pub split : s.cache_bst ≡ removed ++ t.cache_bst

over_limit-total :
    (required : ℕ) (n : Node Cache) (rest : List (Node Cache)) (s : Lfuda)
    → required < half64
    → IsValid s
    → s.cache_bst ≡ n ∷ rest
    → over_limit required s ≡ ltb s.max_size (total (n.value ∷ values rest) + required)
unfolding over_limit
over_limit-total required n rest s small v e =
    ground (arith, is_empty-cache_map s v, v.small, v.accounted, ap (λ l. total (values l)) e)

over_limit-empty :
    (required : ℕ) (s : Lfuda) → IsValid s → s.cache_bst ≡ [] → over_limit required s ≡ false
unfolding over_limit
over_limit-empty required s v e = ground (arith, is_empty-cache_map s v)

HasRoom-next :
    (required : ℕ) (n : Node Cache) (rest : List (Node Cache)) (s t : Lfuda)
    → s.cache_bst ≡ n ∷ rest
    → ltb s.max_size (total (n.value ∷ values rest) + required) ≡ true
    → HasRoom required (drop_worst n rest s) t
    → HasRoom required s t
unfolding drop_worst kept dropped last_eff
HasRoom-next required n rest s t e over room = record {
  valid = room.valid;
  entries = room.entries ∙ sym (rw (e, over, kept));
  aging = room.aging ∙ sym (rw (e, over, dropped, last_eff));
  ends = room.ends;
  max_size = room.max_size;
  removed = n ∷ room.removed;
  split = e ∙ ap (◌∷◌ n) room.split;
}

HasRoom-here :
    (required : ℕ) (n : Node Cache) (rest : List (Node Cache)) (s : Lfuda)
    → IsValid s
    → s.cache_bst ≡ n ∷ rest
    → ltb s.max_size (total (n.value ∷ values rest) + required) ≡ false
    → HasRoom required s s
unfolding kept dropped last_eff
HasRoom-here required n rest s v e under = record {
  valid = v;
  entries = ap values e ∙ sym (rw (e, under, kept));
  aging = sym (rw (e, under, dropped, last_eff));
  ends = inr (ground (arith, under, v.accounted, ap (λ l. total (values l)) e));
  max_size = refl;
  removed = [];
  split = refl;
}

evict-HasRoom :
    (required : ℕ) (removed : List Cache) (l : List (Node Cache)) (s : Lfuda)
    → s.cache_bst ≡ l
    → required < half64
    → IsValid s
    → (t : Lfuda) × (evict required removed l s
        ≡ returns (removed ++ dropped s.max_size required (values l)) t)
      × HasRoom required s t
      × (t.callbacks ≡ s.callbacks)
unfolding evict kept dropped last_eff drop_worst
evict-HasRoom required removed [] s e small v = (
  s,
  rw (over_limit-empty required s v e, evict, append-nil),
  record {
    valid = v;
    entries = rw (e, kept);
    aging = rw (e, dropped);
    ends = inl e;
    max_size = refl;
    removed = [];
    split = refl;
  },
  refl,
)
evict-HasRoom required removed (n ∷ rest) s e small v =
    let test = over_limit-total required n rest s small v e in
    elim (Bool-cases (over_limit required s)) [
      | inl over ↦
          let (t, out, room, cbs) =
            evict-HasRoom required (removed ++ n.value ∷ []) rest (drop_worst n rest s) refl small
              (drop_worst-IsValid n rest s v e) in
          let test' = sym test ∙ over in
          (
            t,
            rw (over, evict, test', dropped)
                (out
                  ∙ ap (λ q. returns q t)
                      (append_assoc removed (n.value ∷ [])
                        (dropped s.max_size required (values rest)))),
            HasRoom-next required n rest s t e test' room,
            cbs,
          )
      | inr under ↦
          let test' = sym test ∙ under in
          (
            s,
            rw (under, evict, test', dropped, append-nil),
            HasRoom-here required n rest s v e test',
            refl,
          )
    ]

notify-report :
    (q : List Cache) (t : Lfuda) → notify q t ≡ record t { callbacks = t.callbacks ++ report q }
unfolding notify
notify-report [] t = λ i. record t { callbacks = sym (append-nil t.callbacks) i }
notify-report (c ∷ q) t = refl

-- In a valid state and for fewer than 2^63 required bytes, remove_cache of the in-memory LFU-DA
-- cache returns, takes entries off in the order of operator< as long as the rest and the required
-- bytes exceed the limit, sets the age to the effective frequency of the last of them, reports
-- them in one call of the callback (in none if there are none), and keeps the invariant.
pub lfuda_remove_cache-HasRoom :
    (required : ℕ) (s : Lfuda)
    → required < half64
    → IsValid s
    → (t : Lfuda) × (remove_cache required s ≡ returns tt t)
      × HasRoom required s t
      × (t.callbacks ≡ s.callbacks ++ report (dropped s.max_size required (values s.cache_bst)))
unfolding remove_cache
lfuda_remove_cache-HasRoom required s small v =
    let (t, out, room, cbs) = evict-HasRoom required [] s.cache_bst s refl small v in
    let q = dropped s.max_size required (values s.cache_bst) in
    (
      record t { callbacks = t.callbacks ++ report q },
      rw (out, remove_cache) (ap (returns tt) (notify-report q t)),
      record {
        valid = callbacks-IsValid t _ room.valid;
        entries = room.entries;
        aging = room.aging;
        ends = room.ends;
        max_size = room.max_size;
        removed = room.removed;
        split = room.split;
      },
      ap (λ l. l ++ report q) cbs,
    )

pub deref-suffix_none :
    (i : ℕ) (q p : List (Node Cache)) → deref i (q ++ p) ≡ none → deref i p ≡ none
unfolding deref
deref-suffix_none i [] p h = h
deref-suffix_none i (n ∷ q) p h = ground (arith, deref-suffix_none i q p)

pub find_key-suffix_none :
    (k : Str) (q p : List (Node Cache)) → find_key k (q ++ p) ≡ none → find_key k p ≡ none
unfolding find_key
find_key-suffix_none k [] p h = h
find_key-suffix_none k (n ∷ q) p h = ground (arith, find_key-suffix_none k q p)

-- An iterator survives an eviction exactly when the entry of its key does.
pub deref-suffix :
    (i : ℕ) (a : Cache) (q p : List (Node Cache))
    → Distinct (q ++ p)
    → deref i (q ++ p) ≡ some a
    → deref i p ≡ find_value a.key (values p)
unfolding deref find_key
deref-suffix i a [] p d h = ground (arith, find_key-deref i a p d h, find_value-values a.key p)
deref-suffix i a (n ∷ q) p d h = ground (
  arith,
  deref-suffix i a q p d.2,
  deref-suffix_none i q p,
  find_key-suffix_none a.key q p,
  find_value-values a.key p,
)
