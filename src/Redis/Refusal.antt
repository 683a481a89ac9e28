-- ===== src/Redis/Refusal.antt =====
-- Errors of a context that a command meets again in every try: src/redis/redis_base.h.
use x_cache_manager.Prelude.{
  ℕ, zero, suc, ◌+◌, ◌≤◌, ◌<◌, ◌≡◌, ◌≢◌, refl, ◌∙◌, Bool, false, ◌&&◌, ◌||◌, none, some, ◌⊎◌, inl,
  inr, arith, ltb, ◌==◌, Outcome, returns, throws, ◌>>◌, bind-returns, bind-throws,
}
use x_cache_manager.Redis.Errors.{say_lem, logged, print_lem, last_try-throw, last_try-go_on}
use x_cache_manager.Redis.{
  Reply, Hiredis, commanding, failure, Error, failed, retry, Redis, say, cause, command,
  command_loop, command_round, ask, proc_error, except_print, last_try, reconnect_if_lost,
}

-- hiredis documents that a context with an error cannot be used again: a command gets no reply.
abbrev pub Sticky : Hiredis → Type 0
Sticky h = (n e : ℕ) → e ≢ 0 → h.answers n e ≡ inr e

-- The loop of `command` gets over an error by connecting again, if it has a second round and the
-- error is one of a lost connection.
abbrev pub handled : ℕ → ℕ → Bool
handled m err = err == 0 || (ltb 1 m && (err == 1 || err == 3))

alternative :
    (n err : ℕ) → err ≢ 0 → handled (suc n) err ≡ false → (n ≡ 0) ⊎ ((err == 1 || err == 3) ≡ false)
alternative zero err broken x = inl refl
alternative (suc n) err broken x = inr (ground arith)

module _ (h : Hiredis) (sticky : Sticky h) {err : ℕ} (broken : err ≢ 0) where
  abbrev pub refused : Redis → Redis
  refused s = record s { redis_ctx = some err; calls = suc s.calls }

  abbrev pub printed : Redis → Redis
  printed s = logged (failure commanding (cause err)) (refused s)

  ask-refused : (s : Redis) → s.redis_ctx ≡ some err → ask h s ≡ returns none (refused s)
  unfolding ask
  ask-refused s has = ground (arith, sticky s.calls err broken)

  -- A round with a context in error.
  pub round :
      (n i : ℕ) (s : Redis)
      → s.redis_ctx ≡ some err
      → command_loop h (suc n) i s
        ≡ (last_try i
              >> (reconnect_if_lost h >> (say (retry commanding i) >> command_loop h n (suc i))))
            (printed s)
  unfolding command_loop command_round
  round n i s has =
      bind-returns (ask h) (command_round h i (command_loop h n (suc i))) s (refused s) none
        (ask-refused s has)
      ∙ bind-returns (proc_error except_print commanding) _ (refused s) (printed s) tt
          (print_lem (refused s) {err = err} refl commanding)

  last_round :
      (n i : ℕ) (s : Redis)
      → s.redis_ctx ≡ some err
      → i ≡ s.max_tries
      → command_loop h (suc n) i s ≡ throws (failed commanding (cause err)) (printed s)
  last_round n i s has e =
      round n i s has
      ∙ bind-throws (last_try i) _ (printed s) (printed s) _
          (last_try-throw (printed s) {err = err} refl i e)

  pub middle_round :
      (n i : ℕ) (s : Redis)
      → s.redis_ctx ≡ some err
      → i < s.max_tries
      → command_loop h (suc n) i s
        ≡ (reconnect_if_lost h >> (say (retry commanding i) >> command_loop h n (suc i)))
            (printed s)
  middle_round n i s has lt =
      round n i s has
      ∙ bind-returns (last_try i) _ (printed s) (printed s) tt
          (last_try-go_on (printed s) {err = err} refl i lt)

  -- What a command that throws leaves.
  pub record Left (s t : Redis) : Type 0 where
    pub redis_ctx : t.redis_ctx ≡ some err
    pub connected : t.connected ≡ s.connected
    pub max_tries : t.max_tries ≡ s.max_tries
    pub calls : s.calls ≤ t.calls

  abbrev pub Refused : Redis → Outcome Error Redis Reply → Type 0
  Refused s o = (t : Redis) × (o ≡ throws (failed commanding (cause err)) t) × Left s t

  not_lost :
      (s : Redis) (i : ℕ)
      → (err == 1 || err == 3) ≡ false
      → reconnect_if_lost h (printed s) ≡ returns tt (printed s)
  unfolding reconnect_if_lost
  not_lost s i e = rw e refl

  loop-Refused :
      (n i : ℕ) (s : Redis)
      → s.redis_ctx ≡ some err
      → i + n ≡ s.max_tries
      → (n ≡ 0) ⊎ ((err == 1 || err == 3) ≡ false)
      → Refused s (command_loop h (suc n) i s)
  loop-Refused zero i s has m alt = (
    printed s,
    last_round 0 i s has (omega arith),
    record { redis_ctx = refl; connected = refl; max_tries = refl; calls = omega arith },
  )
  loop-Refused (suc n) i s has m (inl z) = absurd (omega arith)
  loop-Refused (suc n) i s has m (inr e) =
      let u = logged (retry commanding i) (printed s) in
      let (t, r, w) = loop-Refused n (suc i) u refl (omega arith) (inr e) in
      (
        t,
        middle_round (suc n) i s has (omega arith)
            ∙ bind-returns (reconnect_if_lost h) _ (printed s) (printed s) tt (not_lost s i e)
            ∙ bind-returns (say (retry commanding i)) (λ _. command_loop h (suc n) (suc i))
                (printed s) u tt (say_lem (retry commanding i) (printed s))
            ∙ r,
        record {
          redis_ctx = w.redis_ctx;
          connected = w.connected;
          max_tries = w.max_tries;
          calls = omega (arith, w.calls);
        },
      )

  command_rounds-Refused :
      (n : ℕ) (s : Redis)
      → s.redis_ctx ≡ some err
      → n ≡ s.max_tries
      → 0 < n
      → handled n err ≡ false
      → Refused s (command_loop h n 1 s)
  command_rounds-Refused zero s has e pos x = absurd (omega arith)
  command_rounds-Refused (suc n) s has e pos x =
      loop-Refused n 1 s has (omega arith) (alternative n err broken x)

  pub command-Refused :
      (s : Redis)
      → s.redis_ctx ≡ some err
      → 0 < s.max_tries
      → handled s.max_tries err ≡ false
      → Refused s (command h s)
  unfolding command
  command-Refused s has pos x = command_rounds-Refused s.max_tries s has refl pos x
