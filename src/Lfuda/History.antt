-- ===== src/Lfuda/History.antt =====
-- Whole histories of calls of the LFU-DA cache kept in memory.
use x_cache_manager.Prelude.{ℕ, ◌<◌, ◌≡◌, Bool, Option, List, Str, half64}
use x_cache_manager.Simulation.{
  Reply, answer, answer-Follows, repeat, seen, Stays, Every, repeat-simulates,
}
use x_cache_manager.Lfuda
use x_cache_manager.Lfuda.{Cache, Error, Lfuda}
use x_cache_manager.Lfuda.Invariant.{IsValid}
use x_cache_manager.Lfuda.Model
use x_cache_manager.Lfuda.Model.{Model, view}
use x_cache_manager.Lfuda.Refinement.{
  lfuda_put-Refines, renew-Refines, lfuda_update-Refines, resize-Refines, query-Refines,
}

pub data Call : Type 0 where
  puts : Cache → Call
  renews : Str → ℕ → Call
  updates : Str → ℕ → Call
  resizes : ℕ → Call
  queries : Str → Call

pub data Answer : Type 0 where
  flag : Bool → Answer
  nothing : Answer
  entry : Cache → Answer

abbrev pub call : Call → Lfuda → Option (Reply Error Answer × Lfuda)
call (puts c) s = answer flag (Lfuda.put c s)
call (renews k time) s = answer flag (Lfuda.renew k time s)
call (updates k size) s = answer flag (Lfuda.update k size s)
call (resizes n) s = answer (λ _. nothing) (Lfuda.resize n s)
call (queries k) s = answer entry (Lfuda.query k s)

abbrev pub call_model : Call → Model → Option (Reply Error Answer × Model)
call_model (puts c) m = answer flag (Model.put c m)
call_model (renews k time) m = answer flag (Model.renew k time m)
call_model (updates k size) m = answer flag (Model.update k size m)
call_model (resizes n) m = answer (λ _. nothing) (Model.resize n m)
call_model (queries k) m = answer entry (Model.query k m)

-- The sizes that a call hands over are below half of the range.
abbrev pub IsSmall : Call → Type 0
IsSmall (puts c) = c.size < half64
IsSmall (resizes n) = n < half64
IsSmall (renews k time) = Unit {0}
IsSmall (updates k size) = size < half64
IsSmall (queries k) = Unit {0}

pub call-call_model :
    (c : Call) (s : Lfuda)
    → IsSmall c
    → IsValid s
    → (seen view (call c s) ≡ call_model c (view s)) × Stays IsValid (call c s)
call-call_model (puts c) s h v = answer-Follows view IsValid flag _ _ (lfuda_put-Refines c s h v)
call-call_model (renews k time) s h v =
    answer-Follows view IsValid flag _ _ (renew-Refines k time s v)
call-call_model (updates k size) s h v =
    answer-Follows view IsValid flag _ _ (lfuda_update-Refines k size s h v)
call-call_model (resizes n) s h v =
    answer-Follows view IsValid (λ _. nothing) _ _ (resize-Refines n s h v)
call-call_model (queries k) s h v = answer-Follows view IsValid entry _ _ (query-Refines k s v)

-- Any history of put, renew, update, resize and query calls with sizes below 2^63, from any valid
-- state of the in-memory LFU-DA cache, gives the replies, the entries in the order of operator<,
-- the age, the limit and the calls of the callback that the model gives, is undefined exactly
-- where the model is, and ends in a valid state.
pub lfuda_history-model :
    (cs : List Call) (s : Lfuda)
    → Every IsSmall cs
    → IsValid s
    → (seen view (repeat call cs s) ≡ repeat call_model cs (view s))
      × Stays IsValid (repeat call cs s)
lfuda_history-model = repeat-simulates view IsValid IsSmall call call_model call-call_model
