-- ===== src/Redis/Calls.antt =====
-- `connect` and the calls of the adapter, in any sequence: src/redis/redis_base.cpp and
-- redis_adapter.h.
use x_cache_manager.Prelude.{
  ℕ, zero, suc, ◌+◌, ◌*◌, ◌<◌, ◌≡◌, refl, Bool, true, false, some, inl, inr, arith, ◌==◌,
  if◌then◌else◌, is_some, Outcome, returns, throws, undefined, ◌>>=◌, ◌>>◌, subst, sym,
  Option-cases,
}
use x_cache_manager.Redis.Errors.{disconnect_lem, require_null-throw, require_null-return, logged}
use x_cache_manager.Redis.{
  Reply, resetting, caught, retry_by_adapter, Hiredis, connecting, Error, started, context_not_null,
  Redis, M, say, disconnect, require_null, open_context, connect_round, connect_loop, connect,
  command,
}
use x_cache_manager.Redis.Keeps.{
  Keeps-last, Stays-returns, Stays-throws, Holds, Stays, Keeps, Stays-mono, Stays-bind, Keeps-bind,
  Keeps-then, Keeps-last, keeps_rules, Keeps-if, Keeps-pure, Keeps-say, Keeps-report,
}
use x_cache_manager.Redis.Adapter.{reset, second_try, command_impl}
use x_cache_manager.Redis.Safety.{keep_alive-Keeps, command-Keeps}

module _ (h : Hiredis) (m : ℕ) (allocates : (n : ℕ) → is_some (h.opens n) ≡ true) where
  connect_round-Keeps :
      (k i : ℕ) (rest : M (Unit {0})) (err : ℕ)
      → Keeps m k rest
      → Keeps m k (connect_round i rest (some err))
  unfolding connect_round
  connect_round-Keeps k i rest err p =
      Keeps-if (err == 0) Keeps-pure
        (Keeps-then (Keeps-report i connecting) (λ _. Keeps-then (Keeps-say _) (λ _. p)))

  -- A context is opened, and the round goes on.
  opened_round :
      (k i : ℕ) (rest : M (Unit {0})) (s : Redis)
      → s.max_tries ≡ m
      → Keeps m k rest
      → Stays m (suc k) s.calls ((open_context h >>= connect_round i rest) s)
  unfolding open_context
  opened_round k i rest s e p = elim (Option-cases (h.opens s.calls)) [
    | inl null ↦ absurd (cc (allocates s.calls))
    | inr (err, got) ↦ rw got (
        Stays-mono m k (suc s.calls) (suc k) s.calls _
          ((connect_round-Keeps k i rest err p).at _ (refl, e)) (omega arith))
  ]

  connect_loop-Keeps : (n i : ℕ) → Keeps m n (connect_loop h n i)
  unfolding connect_loop
  connect_loop-Keeps zero i = Keeps-pure
  connect_loop-Keeps (suc n) i = record {
    at = λ s hs. opened_round n i (connect_loop h n (suc i)) s hs.1 (connect_loop-Keeps n (suc i));
  }

  connect_tries-Stays :
      (n : ℕ) (s : Redis) → 0 < n → s.max_tries ≡ m → Stays m n s.calls (connect_loop h n 1 s)
  unfolding connect_loop
  connect_tries-Stays zero s pos e = absurd (omega arith)
  connect_tries-Stays (suc n) s pos e =
      opened_round n 1 (connect_loop h n 2) s e (connect_loop-Keeps n 2)

  -- `connect` gets a context, or keeps the one that it refuses to replace.
  pub connect-Stays : (s : Redis) → 0 < m → s.max_tries ≡ m → Stays m (m + 1) s.calls (connect h s)
  unfolding connect say require_null
  connect-Stays s pos e =
      let u = logged (started connecting) s in
      elim (Option-cases s.redis_ctx) [
        | inl null ↦
            Stays-returns m (m + 1) s.calls require_null _ u u tt (require_null-return u null) (
              Stays-bind m m 1 s.calls (connect_loop h s.max_tries 1 u) _ u
                (subst (λ k. Stays m m s.calls (connect_loop h k 1 u)) (sym e)
                  (connect_tries-Stays m u pos e))
                (λ _. Keeps-last (keep_alive-Keeps h m) (λ _. search keeps_rules)))
        | inr (err, has) ↦
            Stays-throws m (m + 1) s.calls require_null _ u u context_not_null
              (require_null-throw u has) ((rw has refl, e), omega arith)
      ]

  -- `reset` gets a new context.
  pub reset-Keeps : 0 < m → Keeps m (m + 1) (reset h)
  unfolding reset say
  reset-Keeps pos = record {
    at = λ s hs. elim (Option-cases s.redis_ctx) [
      | inl e ↦ absurd (ground arith)
      | inr (err, has) ↦
          let u = logged resetting s in
          Stays-returns m (m + 1) s.calls disconnect _ u _ tt (disconnect_lem u has)
            (connect-Stays _ pos hs.1)
    ];
  }

  second_try-Stays :
      (b : Bool) (s : Redis)
      → 0 < m
      → Holds m s
      → Stays m (m + 1 + m * m) s.calls (if b then command h s else (reset h >> command h) s)
  second_try-Stays true s pos hs =
      Stays-mono m (m * m) s.calls _ s.calls (command h s) ((command-Keeps h m pos).at s hs)
        (omega arith)
  second_try-Stays false s pos hs =
      (Keeps-bind (m + 1) (m * m) (reset-Keeps pos) (λ _. command-Keeps h m pos)).at s hs

  second_try-Keeps : 0 < m → Keeps m (m + 1 + m * m) (second_try h)
  unfolding second_try
  second_try-Keeps pos = record { at = λ s hs. second_try-Stays s.connected s pos hs }

  caught-Stays :
      (upper_retry : Bool) (o : Outcome Error Redis Reply) (n : ℕ)
      → 0 < m
      → Stays m (m * m) n o
      → Stays m (m * m + (m + 1 + m * m)) n (elim o [
        | returns reply t ↦ returns reply t
        | undefined ↦ undefined
        | throws e t ↦
            if upper_retry
            then (say (caught e) >> say retry_by_adapter >> second_try h) t
            else throws e t
      ])
  caught-Stays upper_retry (returns reply t) n pos st = (st.0, omega (arith, st.1))
  caught-Stays false (throws e t) n pos st = (st.0, omega (arith, st.1))
  caught-Stays true (throws e t) n pos st =
      let k = m + 1 + m * m in
      let again : Keeps m k (say (caught e) >> say retry_by_adapter >> second_try h) =
        Keeps-then (Keeps-then (Keeps-say _) (λ _. Keeps-say _)) (λ _. second_try-Keeps pos) in
      Stays-mono m k t.calls (m * m + k) n _ (again.at t st.0) (omega (arith, st.1))
  caught-Stays upper_retry undefined n pos st = absurd st

  -- The two tries of a command.
  pub command_impl-Keeps :
      (upper_retry : Bool) → 0 < m → Keeps m (m * m + (m + 1 + m * m)) (command_impl h upper_retry)
  unfolding command_impl
  command_impl-Keeps upper_retry pos = record {
    at = λ s hs.
        caught-Stays upper_retry (command h s) s.calls pos ((command-Keeps h m pos).at s hs);
  }
