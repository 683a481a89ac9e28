-- ===== src/Lru/History.antt =====
-- Whole histories of calls of the LRU cache, from the construction or from a saved state on. A
-- caller that catches an exception goes on with the object; undefined behaviour ends the history.
use mathlib.Core.List.{append_assoc, append-nil}
use x_cache_manager.Prelude.{
  ℕ, ◌<◌, ◌≡◌, refl, sym, ap, ◌∙◌, subst, arith, Bool, Option, none, some, List, [], ◌∷◌, ◌++◌, Str,
  Outcome, returns, throws, ◌>>=◌, undefined, inl, inr, ◌⊎◌, ◌==◌, Bool-cases, half64,
}
use x_cache_manager.Container.Nodes.{Node, values, find_key, total}
use x_cache_manager.Container.Index.{find}
use x_cache_manager.Container.Values.{find_value, find_value-values}
use x_cache_manager.Simulation.{
  Reply, answer, answer-Follows, repeat, seen, Stays, Every, repeat-simulates,
}
use x_cache_manager.Lru
use x_cache_manager.Lru.{Cache, cache_entry, Error, Lru, push_front, max_size_zero, empty}
use x_cache_manager.Lru.Invariant.{IsValid, push_front-IsValid}
use x_cache_manager.Lru.Model
use x_cache_manager.Lru.Model.{Model, view}
use x_cache_manager.Lru.Refinement.{
  put-Refines, renew-Refines, update-Refines, resize-Refines, query-Refines,
}

pub data Call : Type 0 where
  puts : Cache → Call
  renews : Str → Call
  updates : Str → ℕ → Call
  resizes : ℕ → Call
  queries : Str → Call

pub data Answer : Type 0 where
  flag : Bool → Answer
  nothing : Answer
  entry : Cache → Answer

abbrev pub call : Call → Lru → Option (Reply Error Answer × Lru)
call (puts c) s = answer flag (Lru.put c s)
call (renews k) s = answer flag (Lru.renew k s)
call (updates k size) s = answer flag (Lru.update k size s)
call (resizes n) s = answer (λ _. nothing) (Lru.resize n s)
call (queries k) s = answer entry (Lru.query k s)

abbrev pub call_model : Call → Model → Option (Reply Error Answer × Model)
call_model (puts c) m = answer flag (Model.put c m)
call_model (renews k) m = answer flag (Model.renew k m)
call_model (updates k size) m = answer flag (Model.update k size m)
call_model (resizes n) m = answer (λ _. nothing) (Model.resize n m)
call_model (queries k) m = answer entry (Model.query k m)

-- The sizes that a call hands over are below half of the range.
abbrev pub IsSmall : Call → Type 0
IsSmall (puts c) = c.size < half64
IsSmall (resizes n) = n < half64
IsSmall (renews k) = Unit {0}
IsSmall (updates k size) = Unit {0}
IsSmall (queries k) = Unit {0}

call-call_model :
    (c : Call) (s : Lru)
    → IsSmall c
    → IsValid s
    → (seen view (call c s) ≡ call_model c (view s)) × Stays IsValid (call c s)
call-call_model (puts c) s h v = answer-Follows view IsValid flag _ _ (put-Refines c s h v)
call-call_model (renews k) s h v = answer-Follows view IsValid flag _ _ (renew-Refines k s v)
call-call_model (updates k size) s h v =
    answer-Follows view IsValid flag _ _ (update-Refines k size s v)
call-call_model (resizes n) s h v =
    answer-Follows view IsValid (λ _. nothing) _ _ (resize-Refines n s h v)
call-call_model (queries k) s h v = answer-Follows view IsValid entry _ _ (query-Refines k s v)

-- Any history of put, renew, update, resize and query calls with sizes below 2^63, from any valid
-- state of the in-memory LRU cache, gives the replies, the entries in their order, the limit and
-- the calls of the callback that the model gives, is undefined exactly where the model is, and
-- ends in a valid state.
pub history-model :
    (cs : List Call) (s : Lru)
    → Every IsSmall cs
    → IsValid s
    → (seen view (repeat call cs s) ≡ repeat call_model cs (view s))
      × Stays IsValid (repeat call cs s)
history-model = repeat-simulates view IsValid IsSmall call call_model call-call_model

-- No two entries have the same key.
abbrev pub KeysDistinct : List Cache → Type 0
KeysDistinct [] = Unit {0}
KeysDistinct (c ∷ l) = (find_value c.key l ≡ none) × KeysDistinct l

values-load :
    (l : List Cache) (s : Lru) → values (Lru.load l s).cache_list ≡ l ++ values s.cache_list
unfolding Lru.load push_front
values-load [] s = refl
values-load (c ∷ l) s = ap (◌∷◌ c) (values-load l s)

drain-append : (l : List Cache) (nodes : List (Node Cache)) → Lru.drain l nodes ≡ l ++ values nodes
unfolding Lru.drain
drain-append l [] = sym (append-nil l)
drain-append l (n ∷ nodes) =
    drain-append (l ++ n.value ∷ []) nodes ∙ append_assoc l (n.value ∷ []) (values nodes)

abbrev pub result : {A : Type 0} → Outcome Error Lru A → Option A
result (returns a s) = some a
result (throws e s) = none
result undefined = none

-- Init puts saved entries, in their order, in front of those that the in-memory LRU cache holds,
-- and backup gives all of them back.
pub backup-init :
    (l : List Cache) (s : Lru)
    → result ((Lru.init l >>= λ _. Lru.backup) s) ≡ some (l ++ values s.cache_list)
unfolding Lru.init Lru.backup
backup-init l s = ap some (drain-append [] (Lru.load l s).cache_list ∙ values-load l s)

pub load-IsValid :
    (l : List Cache) (s : Lru)
    → IsValid s
    → KeysDistinct (l ++ values s.cache_list)
    → total (l ++ values s.cache_list) < half64
    → IsValid (Lru.load l s)
unfolding Lru.load push_front total
load-IsValid [] s v d small = v
load-IsValid (c ∷ l) s v d small =
    let t = Lru.load l s in
    let w = load-IsValid l s v d.1 (omega arith) in
    let sum = w.accounted ∙ ap total (values-load l s) in
    let absent = find_value-values c.key t.cache_list in
    let new = ap (find_value c.key) (values-load l s) ∙ d.0 in
    push_front-IsValid t c _ w (find_key_of_value c.key t.cache_list new) (ground (arith, sum))
      (ground (arith, sum))
  where
    find_key_of_value :
        (k : Str) (nodes : List (Node Cache))
        → find_value k (values nodes) ≡ none
        → find_key k nodes ≡ none
    find_key_of_value k nodes h = ground (arith, find_value-values k nodes)

load_frame :
    (l : List Cache) (s : Lru)
    → ((Lru.load l s).max_size ≡ s.max_size) × ((Lru.load l s).callbacks ≡ s.callbacks)
unfolding Lru.load push_front
load_frame [] s = (refl, refl)
load_frame (c ∷ l) s = load_frame l s

pub empty-IsValid : (size : ℕ) → size < half64 → IsValid (empty size)
unfolding find find_key total
empty-IsValid size small = record {
  distinct = tt;
  below = tt;
  synced = λ k. refl;
  accounted = refl;
  small = omega arith;
  max_small = small;
}

-- With a limit below 2^63, the in-memory LRU cache throws on construction where the limit is 0;
-- otherwise it is constructed, and loading saved entries of distinct keys and of a total below
-- 2^63 gives a valid state that holds these entries in their order.
pub construct-init :
    (size : ℕ) (l : List Cache)
    → size < half64
    → KeysDistinct l
    → total l < half64
    → ((size ≡ 0) × (Lru.construct size ≡ throws max_size_zero tt))
      ⊎ ((Lru.construct size ≡ returns (empty size) tt)
          × IsValid (Lru.load l (empty size))
          × (view (Lru.load l (empty size)) ≡ record { limit = size; entries = l; callbacks = [] }))
unfolding Lru.construct
construct-init size l small d fits = elim (Bool-cases (size == 0)) [
  | inl z ↦ inl (ground arith, rw (z, Lru.construct))
  | inr nz ↦
      let all = sym (append-nil l) in
      let (limit, cbs) = load_frame l (empty size) in
      inr (
        rw (nz, Lru.construct),
        load-IsValid l (empty size) (empty-IsValid size small) (subst KeysDistinct all d)
            (subst (λ q. total q < half64) all fits),
        λ i. record {
          limit = limit i;
          entries = (values-load l (empty size) ∙ append-nil l) i;
          callbacks = cbs i;
        },
      )
]
