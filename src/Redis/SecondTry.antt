-- ===== src/Redis/SecondTry.antt =====
-- When the adapter's two tries of a command get a reply: `command_impl` of
-- src/redis/redis_adapter.h.
use x_cache_manager.Prelude.{
  ℕ, suc, ◌-◌, ◌<◌, ◌≡◌, ◌≢◌, refl, sym, ◌∙◌, subst, ap, Bool, true, false, ◌&&◌, ◌||◌, not, some,
  inl, inr, arith, if◌then◌else◌, Outcome, returns, throws, ◌>>◌, Bool-cases, bind-returns,
}
use x_cache_manager.Redis.Errors.{logged, logged}
use x_cache_manager.Redis.{
  Reply, Hiredis, caught, retry_by_adapter, commanding, Error, failed, Redis, say, cause, command,
  command_loop,
}
use x_cache_manager.Redis.Adapter.{reset, second_try, command_impl}
use x_cache_manager.Redis.Refusal.{Sticky, handled, command-Refused}
use x_cache_manager.Redis.Recovery.{
  Healthy, Healthy-later, Replied, reset-Restored, command_rounds-Replied,
}

-- What the loop of `command` handles, and a lost connection that the adapter may reset.
abbrev pub recoverable : Bool → ℕ → Redis → Bool
recoverable upper_retry err s = handled s.max_tries err || (upper_retry && not s.connected)

-- How a command ends: with a reply, or with the error that the context has.
abbrev pub Settled : ℕ → Redis → Bool → Outcome Error Redis Reply → Type 0
Settled err s true o = Replied s o
Settled err s false o =
    (t : Redis) × (o ≡ throws (failed commanding (cause err)) t)
    × (t.redis_ctx ≡ some err)
    × (t.connected ≡ s.connected)
    × (t.max_tries ≡ s.max_tries)

broken_of : (m err : ℕ) → handled m err ≡ false → err ≢ 0
broken_of m err x = λ e. ground arith

module _ (h : Hiredis) (sticky : Sticky h) where
  command-Replied :
      (s : Redis) (err : ℕ)
      → s.redis_ctx ≡ some err
      → 0 < s.max_tries
      → handled s.max_tries err ≡ true
      → Healthy h s.calls
      → Replied s (command h s)
  unfolding command
  command-Replied s err has pos x w = go (s.max_tries - 1) (omega arith)
    where
      go : (n : ℕ) → suc n ≡ s.max_tries → Replied s (command_loop h s.max_tries 1 s)
      go n e =
          subst (λ k. Replied s (command_loop h k 1 s)) e
            (command_rounds-Replied h sticky n err s has e
              (subst (λ k. handled k err ≡ true) (sym e) x) w)

  impl-returns :
      (upper_retry : Bool) (s t : Redis) (r : Reply)
      → command h s ≡ returns r t
      → command_impl h upper_retry s ≡ returns r t
  unfolding command_impl
  impl-returns upper_retry s t r e = rw (e, command_impl) refl

  -- The connection when the second try begins.
  abbrev again : Error → Redis → Redis
  again x t = logged retry_by_adapter (logged (caught x) t)

  impl-gives_up :
      (s t : Redis) (x : Error) → command h s ≡ throws x t → command_impl h false s ≡ throws x t
  unfolding command_impl
  impl-gives_up s t x e = rw (e, command_impl) refl

  impl-again :
      (s t : Redis) (x : Error)
      → command h s ≡ throws x t
      → command_impl h true s ≡ second_try h (again x t)
  unfolding command_impl say
  impl-again s t x e = rw (e, command_impl) refl

  second_try-connected : (s : Redis) → s.connected ≡ true → second_try h s ≡ command h s
  unfolding second_try
  second_try-connected s e = ap (λ b. if b then command h s else (reset h >> command h) s) e

  second_try-lost : (s : Redis) → s.connected ≡ false → second_try h s ≡ (reset h >> command h) s
  unfolding second_try
  second_try-lost s e = ap (λ b. if b then command h s else (reset h >> command h) s) e

  -- The second try on a new context.
  second_try-Replied :
      (s : Redis) (err : ℕ)
      → s.redis_ctx ≡ some err
      → s.connected ≡ false
      → 0 < s.max_tries
      → Healthy h s.calls
      → Replied s (second_try h s)
  second_try-Replied s err has lost pos w =
      let (v, e, l) = reset-Restored h s {err = err} has pos w in
      let (r, t, e', l') =
        command-Replied v 0 l.redis_ctx (omega (arith, l.max_tries)) refl
          (Healthy-later w l.calls) in
      (
        r,
        t,
        second_try-lost s lost ∙ bind-returns (reset h) (λ _. command h) s v tt e ∙ e',
        record {
          redis_ctx = l'.redis_ctx;
          max_tries = l'.max_tries ∙ l.max_tries;
          calls = omega (arith, l.calls, l'.calls);
        },
      )

  -- The first try failed, and the connection is lost.
  impl-Replied :
      (s : Redis) (err : ℕ)
      → s.redis_ctx ≡ some err
      → 0 < s.max_tries
      → Healthy h s.calls
      → handled s.max_tries err ≡ false
      → s.connected ≡ false
      → Replied s (command_impl h true s)
  impl-Replied s err has pos w x lost =
      let (t, e, l) = command-Refused h sticky (broken_of s.max_tries err x) s has pos x in
      let u = again (failed commanding (cause err)) t in
      let (r, v, e', l') =
        second_try-Replied u err l.redis_ctx (l.connected ∙ lost) (omega (arith, l.max_tries))
          (Healthy-later w l.calls) in
      (
        r,
        v,
        impl-again s t _ e ∙ e',
        record {
          redis_ctx = l'.redis_ctx;
          max_tries = l'.max_tries ∙ l.max_tries;
          calls = omega (arith, l.calls, l'.calls);
        },
      )

  lost_case :
      (upper_retry : Bool) (s : Redis) (err : ℕ)
      → s.redis_ctx ≡ some err
      → 0 < s.max_tries
      → Healthy h s.calls
      → handled s.max_tries err ≡ false
      → (upper_retry && not s.connected) ≡ true
      → Replied s (command_impl h upper_retry s)
  lost_case false s err has pos w x y = absurd (ground arith)
  lost_case true s err has pos w x y = impl-Replied s err has pos w x (ground arith)

  command_impl-Replied :
      (upper_retry : Bool) (s : Redis) (err : ℕ)
      → s.redis_ctx ≡ some err
      → 0 < s.max_tries
      → Healthy h s.calls
      → recoverable upper_retry err s ≡ true
      → Replied s (command_impl h upper_retry s)
  command_impl-Replied upper_retry s err has pos w x = elim (Bool-cases (handled s.max_tries err)) [
    | inl e ↦
        let (r, t, e', l) = command-Replied s err has pos e w in
        (r, t, impl-returns upper_retry s t r e', l)
    | inr e ↦ lost_case upper_retry s err has pos w e (ground arith)
  ]

  command_impl-Refused :
      (upper_retry : Bool) (s : Redis) (err : ℕ)
      → s.redis_ctx ≡ some err
      → 0 < s.max_tries
      → recoverable upper_retry err s ≡ false
      → (t : Redis) × (command_impl h upper_retry s ≡ throws (failed commanding (cause err)) t)
        × (t.redis_ctx ≡ some err)
        × (t.connected ≡ s.connected)
        × (t.max_tries ≡ s.max_tries)
  command_impl-Refused false s err has pos x =
      let x' : handled s.max_tries err ≡ false = ground arith in
      let (t, e, l) = command-Refused h sticky (broken_of s.max_tries err x') s has pos x' in
      (t, impl-gives_up s t _ e, l.redis_ctx, l.connected, l.max_tries)
  command_impl-Refused true s err has pos x =
      let x' : handled s.max_tries err ≡ false = ground arith in
      let on : s.connected ≡ true = ground arith in
      let broken = broken_of s.max_tries err x' in
      let (t, e, l) = command-Refused h sticky broken s has pos x' in
      let u = again (failed commanding (cause err)) t in
      let (v, e', l') =
        command-Refused h sticky broken u l.redis_ctx (omega (arith, l.max_tries))
          (subst (λ k. handled k err ≡ false) (sym l.max_tries) x') in
      (
        v,
        impl-again s t _ e ∙ second_try-connected u (l.connected ∙ on) ∙ e',
        l'.redis_ctx,
        l'.connected ∙ l.connected,
        l'.max_tries ∙ l.max_tries,
      )

  -- On a context with an error, or with none, where at least one try is allowed and hiredis does
  -- not lose an error by itself: if there is no error, or an I/O error or end of file and a second
  -- try, or a second try of the adapter on a connection that is known to be lost, and the server
  -- answers everything from now on, command_impl returns a reply and leaves a usable context; in
  -- all other cases it throws the context's error, whatever the server does, and leaves the error,
  -- connected and max_tries as they were.
  pub command_impl-outcome :
      (upper_retry : Bool) (s : Redis) (err : ℕ)
      → s.redis_ctx ≡ some err
      → 0 < s.max_tries
      → (recoverable upper_retry err s ≡ true → Healthy h s.calls)
      → Settled err s (recoverable upper_retry err s) (command_impl h upper_retry s)
  command_impl-outcome upper_retry s err has pos w = elim (Bool-cases x) [
    | inl e ↦
        subst (λ b. Settled err s b o) (sym e)
          (command_impl-Replied upper_retry s err has pos (w e) e)
    | inr e ↦
        subst (λ b. Settled err s b o) (sym e) (command_impl-Refused upper_retry s err has pos e)
  ]
    where
      x : Bool
      x = recoverable upper_retry err s

      o : Outcome Error Redis Reply
      o = command_impl h upper_retry s
