-- ===== src/Redis/Safety.antt =====
-- Calls on a connection: the context that they need, and how often they call hiredis.
-- src/redis/redis_base.h, redis_base.cpp and `command_impl` of redis_adapter.h.
use x_cache_manager.Prelude.{
  ℕ, zero, suc, ◌+◌, ◌*◌, ◌-◌, ◌<◌, ◌≡◌, refl, Bool, true, false, Option, none, some, ◌⊎◌, inl, inr,
  arith, ◌==◌, undefined, Bool-cases, subst, ◌∙◌, sym, Option-cases,
}
use native.Mathlib.Nat.{suc-mul, mul-suc}
use x_cache_manager.Sqlite.Ends.{Ends-returns, Ends-throws}
use x_cache_manager.Redis.Errors.{logged, print_lem, last_try-throw}
use x_cache_manager.Redis.{
  Reply, Hiredis, except_print, except_throw, commanding, failure, socket_setting, failed, M, cause,
  proc_error, require_context, keep_alive, reopen, reconnect_round, reconnect_loop, reconnect, ask,
  last_try, reconnect_if_lost, command_round, command_loop, command,
}
use x_cache_manager.Redis.Keeps.{
  Within, Stays, Keeps, Stays-mono, Keeps-mono, Keeps-bind, Keeps-then, Keeps-last,
  Keeps-set_connected, keeps_rules, Keeps-say, Keeps-with_error, Keeps-proc_error,
}

Answer-cases : (o : Reply ⊎ ℕ) → ((r : Reply) × (o ≡ inl r)) ⊎ ((e : ℕ) × (o ≡ inr e))
Answer-cases (inl r) = inl (r, refl)
Answer-cases (inr e) = inr (e, refl)

square : (n m : ℕ) → suc n ≡ m → suc (n * suc m) ≡ m * m
square n m e =
    subst (λ k. suc (n * suc k) ≡ k * k) e
      (omega (arith, suc-mul n (suc n), mul-suc n (suc n), mul-suc n n))

module _ (h : Hiredis) (m : ℕ) where
  require_context-Keeps : Keeps m 0 require_context
  unfolding require_context
  require_context-Keeps = record { at = λ s hs. rw hs.0 (hs, omega arith) }

  pub keep_alive-Keeps : Keeps m 1 (keep_alive h)
  unfolding keep_alive
  keep_alive-Keeps = Keeps-with_error (λ err. record {
    at = λ s hs. elim (Option-cases (h.keeps_alive s.calls)) [
      | inl e ↦ rw e (hs, omega arith)
      | inr (r, e) ↦ rw e (
          Stays-mono m 0 (suc s.calls) 1 s.calls
            (proc_error except_print socket_setting
              (record s { redis_ctx = some r; calls = suc s.calls }))
            ((Keeps-proc_error except_print socket_setting).at _ (refl, hs.1)) (omega arith))
    ];
  })

  reopen-Keeps : Keeps m 1 (reopen h)
  unfolding reopen
  reopen-Keeps = record {
    at = λ s hs. elim (Option-cases (h.reopens s.calls)) [
      | inl e ↦ rw (e, reopen) ((refl, hs.1), omega arith)
      | inr (err, e) ↦ rw (e, reopen) ((refl, hs.1), omega arith)
    ];
  }

  reconnect_round-Keeps :
      (k i : ℕ) (rest : M (Unit {0})) (b : Bool)
      → Keeps m k rest
      → Keeps m k (reconnect_round i rest b)
  unfolding reconnect_round
  reconnect_round-Keeps k i rest true p = search keeps_rules
  reconnect_round-Keeps k i rest false p = search (keeps_rules, p)

  reconnect_loop-Keeps : (n i : ℕ) → Keeps m n (reconnect_loop h n i)
  unfolding reconnect_loop
  reconnect_loop-Keeps zero i = search keeps_rules
  reconnect_loop-Keeps (suc n) i =
      Keeps-mono (1 + n)
        (Keeps-bind 1 n reopen-Keeps
          (λ b. reconnect_round-Keeps n i _ b (reconnect_loop-Keeps n (suc i))))
        (omega arith)

  reconnect_tries-Keeps : Keeps m m (λ s. reconnect_loop h s.max_tries 1 s)
  reconnect_tries-Keeps = record { at = λ s hs. simp hs.1 ((reconnect_loop-Keeps m 1).at s hs) }

  reconnect-Keeps : Keeps m m (reconnect h)
  unfolding reconnect
  reconnect-Keeps = Keeps-then (Keeps-say _) (λ _. Keeps-then (Keeps-set_connected false) (λ _.
      Keeps-then require_context-Keeps
        (λ _. Keeps-last reconnect_tries-Keeps (λ _. search keeps_rules))))

  ask-Keeps : Keeps m 1 (ask h)
  unfolding ask
  ask-Keeps = Keeps-with_error (λ err. record {
    at = λ s hs. elim (Answer-cases (h.answers s.calls err)) [
      | inl (r, e) ↦ rw e (hs, omega arith)
      | inr (r, e) ↦ rw e ((refl, hs.1), omega arith)
    ];
  })

  last_try-Keeps : (i : ℕ) → Keeps m 0 (last_try i)
  unfolding last_try
  last_try-Keeps i = record {
    at = λ s hs. elim (Bool-cases (i == s.max_tries)) [
      | inl e ↦ rw e ((Keeps-proc_error except_throw commanding).at s hs)
      | inr e ↦ rw e (hs, omega arith)
    ];
  }

  reconnect_if_lost-Keeps : Keeps m m (reconnect_if_lost h)
  unfolding reconnect_if_lost
  reconnect_if_lost-Keeps = search (keeps_rules, reconnect-Keeps)

  -- The last round throws.
  last_round-Keeps : (rest : M Reply) (o : Option Reply) → Keeps m 0 (command_round h m rest o)
  unfolding command_round
  last_round-Keeps rest (some reply) = search keeps_rules
  last_round-Keeps rest none = record {
    at = λ s hs. elim (Option-cases s.redis_ctx) [
      | inl e ↦ absurd (ground arith)
      | inr (err, has) ↦
          let n = s.calls in
          let u = logged (failure commanding (cause err)) s in
          Ends-returns (λ e. Within m 0 n) (λ a. Within m 0 n) (proc_error except_print commanding)
            _ s u tt (print_lem s has commanding)
            (Ends-throws (λ e. Within m 0 n) (λ a. Within m 0 n) (last_try m) _ u u
              (failed commanding (cause err)) (last_try-throw u has m (sym hs.1)) (hs, omega arith))
    ];
  }

  command_round-Keeps :
      (k i : ℕ) (rest : M Reply) (o : Option Reply)
      → Keeps m k rest
      → Keeps m (m + k) (command_round h i rest o)
  unfolding command_round
  command_round-Keeps k i rest (some reply) p = search keeps_rules
  command_round-Keeps k i rest none p = Keeps-then (Keeps-proc_error _ _) (λ _.
      Keeps-then (last_try-Keeps i)
        (λ _. Keeps-bind m k reconnect_if_lost-Keeps (λ _. Keeps-then (Keeps-say _) (λ _. p))))

  command_loop-Keeps :
      (n i : ℕ) → suc n + i ≡ m + 1 → Keeps m (suc (n * suc m)) (command_loop h (suc n) i)
  unfolding command_loop
  command_loop-Keeps zero i e =
      Keeps-mono (1 + 0)
        (Keeps-bind 1 0 ask-Keeps (λ o.
          let same : m ≡ i = omega arith in
          subst (λ j. Keeps m 0 (command_round h j (λ s. undefined) o)) same
            (last_round-Keeps _ o)))
        (omega arith)
  command_loop-Keeps (suc n) i e =
      Keeps-mono (1 + (m + suc (n * suc m)))
        (Keeps-bind 1 (m + suc (n * suc m)) ask-Keeps (λ o.
          command_round-Keeps (suc (n * suc m)) i (command_loop h (suc n) (suc i)) o
            (command_loop-Keeps n (suc i) (omega arith))))
        (grind arith)

  command_rounds-Keeps : (n : ℕ) → suc n ≡ m → Keeps m (m * m) (λ s. command_loop h s.max_tries 1 s)
  command_rounds-Keeps n e = record {
    at = λ s hs.
        subst (λ k. Stays m (m * m) s.calls (command_loop h k 1 s)) (e ∙ sym hs.1)
          (Stays-mono m (suc (n * suc m)) s.calls (m * m) s.calls (command_loop h (suc n) 1 s)
            ((command_loop-Keeps n 1 (omega arith)).at s hs) (omega (arith, square n m e)));
  }

  pub command-Keeps : 0 < m → Keeps m (m * m) (command h)
  unfolding command
  command-Keeps pos = record { at = λ s hs. (command_rounds-Keeps (m - 1) (omega arith)).at s hs }
