-- ===== src/Redis/Histories.antt =====
-- Sequences of calls of the adapter of src/redis/redis_adapter.h, whose exceptions the caller
-- catches.
use x_cache_manager.Prelude.{
  List, [], ◌∷◌, length, ℕ, ◌+◌, ◌*◌, ◌≤◌, ◌<◌, ◌≡◌, refl, Bool, true, Option, none, some, arith,
  is_some, Outcome, returns, throws, undefined,
}
use native.Mathlib.Nat.{suc-mul, zero-mul}
use x_cache_manager.Redis.{
  Reply, string, array, integer, nil, status, double, Replies, end, item, Hiredis, Error, Redis,
  connect, construct,
}
use x_cache_manager.Redis.Keeps.{
  Keeps-last, Holds, Within, Stays, Keeps, Stays-mono, Keeps-then, Keeps-last, keeps_rules,
  Keeps-pure,
}
use x_cache_manager.Redis.Adapter.{
  Kind, as_status, as_integer, as_double, as_string, reply_proc, proc_all, proc_multi,
  command_single, command_multi, reset, init,
}
use x_cache_manager.Redis.Calls.{connect-Stays, reset-Keeps, command_impl-Keeps}

pub data Call : Type 0 where
  initialize resets : Call
  single multi : Kind → Call

module _ {m : ℕ} where
  reply_proc-Keeps : (kind : Kind) (reply : Reply) → Keeps m 0 (reply_proc kind reply)
  unfolding reply_proc
  reply_proc-Keeps kind nil = search keeps_rules
  reply_proc-Keeps as_status (status s) = search keeps_rules
  reply_proc-Keeps as_integer (integer n) = search keeps_rules
  reply_proc-Keeps as_double (double d s) = search keeps_rules
  reply_proc-Keeps as_string (string s) = search keeps_rules
  reply_proc-Keeps _ _ = search keeps_rules

  proc_all-Keeps : (kind : Kind) (replies : Replies) → Keeps m 0 (proc_all kind replies)
  unfolding proc_all
  proc_all-Keeps kind end = search keeps_rules
  proc_all-Keeps kind (item reply rest) =
      Keeps-then (reply_proc-Keeps kind reply)
        (λ value. Keeps-then (proc_all-Keeps kind rest) (λ values. Keeps-pure))

  proc_multi-Keeps : (kind : Kind) (reply : Reply) → Keeps m 0 (proc_multi kind reply)
  unfolding proc_multi
  proc_multi-Keeps kind (array replies) = proc_all-Keeps kind replies
  proc_multi-Keeps kind _ = search (keeps_rules, reply_proc-Keeps)

-- The state after a call, whether it returned or threw; `none` is undefined behaviour.
abbrev pub after : {A : Type 0} → Outcome Error Redis A → Option Redis
after (returns a t) = some t
after (throws e t) = some t
after undefined = none

module _ (h : Hiredis) (upper_retry : Bool) where
  unfoldable pub perform : Call → Redis → Option Redis
  perform initialize s = after (init h s)
  perform resets s = after (reset h s)
  perform (single kind) s = after (command_single h upper_retry kind s)
  perform (multi kind) s = after (command_multi h upper_retry kind s)

  unfoldable pub history : List Call → Redis → Option Redis
  history [] s = some s
  history (c ∷ calls) s = elim (perform c s) [ none ↦ none | some t ↦ history calls t ]

history-step :
    (h : Hiredis) (upper_retry : Bool) (c : Call) (calls : List Call) (s t u : Redis)
    → perform h upper_retry c s ≡ some t
    → history h upper_retry calls t ≡ some u
    → history h upper_retry (c ∷ calls) s ≡ some u
unfolding history
history-step h upper_retry c calls s t u e e' = rw (e, history) e'

-- The calls of hiredis that one call of the adapter may make.
abbrev pub cost : ℕ → ℕ
cost m = m * m + (m + 1 + m * m)

module _ (h : Hiredis) (allocates : (n : ℕ) → is_some (h.opens n) ≡ true) (m : ℕ)
    (pos : 0 < m) where
  pub command_single-Keeps :
      (upper_retry : Bool) (kind : Kind) → Keeps m (cost m) (command_single h upper_retry kind)
  unfolding command_single
  command_single-Keeps upper_retry kind =
      Keeps-last (command_impl-Keeps h m allocates upper_retry pos)
        (λ reply. reply_proc-Keeps kind reply)

  pub command_multi-Keeps :
      (upper_retry : Bool) (kind : Kind) → Keeps m (cost m) (command_multi h upper_retry kind)
  unfolding command_multi
  command_multi-Keeps upper_retry kind =
      Keeps-last (command_impl-Keeps h m allocates upper_retry pos)
        (λ reply. proc_multi-Keeps kind reply)

  after-Stays :
      {A : Type 0} (n : ℕ) (o : Outcome Error Redis A)
      → Stays m (cost m) n o
      → (t : Redis) × (after o ≡ some t) × Within m (cost m) n t
  after-Stays n (returns a t) st = (t, refl, st)
  after-Stays n (throws e t) st = (t, refl, st)
  after-Stays n undefined st = absurd st

  perform-defined :
      (upper_retry : Bool) (c : Call) (s : Redis)
      → Holds m s
      → (t : Redis) × (perform h upper_retry c s ≡ some t) × Within m (cost m) s.calls t
  unfolding perform init
  perform-defined upper_retry initialize s hs = after-Stays s.calls (connect h s) (
      Stays-mono m (m + 1) s.calls (cost m) s.calls (connect h s)
        (connect-Stays h m allocates s pos hs.1) (omega arith))
  perform-defined upper_retry resets s hs = after-Stays s.calls (reset h s) (
      Stays-mono m (m + 1) s.calls (cost m) s.calls (reset h s)
        ((reset-Keeps h m allocates pos).at s hs) (omega arith))
  perform-defined upper_retry (single kind) s hs =
      after-Stays s.calls _ ((command_single-Keeps upper_retry kind).at s hs)
  perform-defined upper_retry (multi kind) s hs =
      after-Stays s.calls _ ((command_multi-Keeps upper_retry kind).at s hs)

  history-defined :
      (upper_retry : Bool) (calls : List Call) (s : Redis)
      → Holds m s
      → (t : Redis) × (history h upper_retry calls s ≡ some t)
        × Within m (length calls * (cost m)) s.calls t
  unfolding history
  history-defined upper_retry [] s hs = (s, refl, (hs, omega (arith, zero-mul (cost m))))
  history-defined upper_retry (c ∷ calls) s hs =
      let (t, e, w) = perform-defined upper_retry c s hs in
      let (u, e', w') = history-defined upper_retry calls t w.0 in
      (
        u,
        history-step h upper_retry _ calls _ t u e e',
        (w'.0, omega (arith, w.1, w'.1, suc-mul (length calls) (cost m))),
      )

  -- Where hiredis always gives a context and at least one try is allowed, init of a new adapter
  -- and any calls after it (init, reset, command_single, command_multi, each exception caught)
  -- never run into undefined behaviour: the context is not null afterwards, the number m of tries
  -- is unchanged, and at most 2m²+m+1 calls of hiredis were made for each call.
  pub adapter_history :
      (upper_retry : Bool) (calls : List Call)
      → (t : Redis) × (history h upper_retry (initialize ∷ calls) (construct m) ≡ some t)
        × Holds m t
        × (t.calls ≤ length (initialize ∷ calls) * (cost m))
  unfolding perform init construct
  adapter_history upper_retry calls =
      let s = construct m in
      let (t, e, w) = after-Stays 0 (connect h s) (
        Stays-mono m (m + 1) 0 (cost m) 0 (connect h s) (connect-Stays h m allocates s pos refl)
          (omega arith)) in
      let (u, e', w') = history-defined upper_retry calls t w.0 in
      (
        u,
        history-step h upper_retry _ calls _ t u e e',
        w'.0,
        omega (arith, w.1, w'.1, suc-mul (length calls) (cost m)),
      )
