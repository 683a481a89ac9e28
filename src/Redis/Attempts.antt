-- ===== src/Redis/Attempts.antt =====
-- How the tries of `RedisBase::connect` end: src/redis/redis_base.cpp.
use native.Mathlib.Nat.{add-zero}
use x_cache_manager.Prelude.{
  ℕ, zero, suc, ◌+◌, ◌-◌, ◌≤◌, ◌<◌, ◌≡◌, refl, sym, ◌∙◌, subst, ap, true, Option, none, some, inl,
  inr, arith, ◌∷◌, is_some, Outcome, returns, throws, ◌>>◌, Option-cases,
}
use x_cache_manager.Redis.Errors.{
  logged, report-print, report-throw, require_null-return, print_lem,
}
use x_cache_manager.Redis.{
  Hiredis, connecting, failure, socket_setting, Error, cannot_allocate, started, failed, retry,
  Redis, M, say, set_connected, cause, require_null, open_context, connect_round, connect_loop,
  keep_alive, connect, established,
}

module _ (h : Hiredis) where
  -- `k` tries from the call `c` on get a context with an error.
  abbrev pub Failing : ℕ → ℕ → Type 0
  Failing c k = (j : ℕ) → j < k → (err : ℕ) × (h.opens (c + j) ≡ some (suc err))

  Failing-zero : (c : ℕ) → Failing c 0
  Failing-zero c j lt = absurd (omega arith)

  Failing-suc : (c k err : ℕ) → h.opens c ≡ some (suc err) → Failing (suc c) k → Failing c (suc k)
  Failing-suc c k err e f zero lt = (err, ap h.opens (add-zero c) ∙ e)
  Failing-suc c k err e f (suc j) lt =
      let (err', e') = f j (omega arith) in
      let same : c + suc j ≡ suc c + j = omega arith in (err', ap h.opens same ∙ e')

  -- What the tries leave of the connection, with `k` contexts opened and none freed.
  pub record Opened (s : Redis) (k : ℕ) (t : Redis) : Type 0 where
    pub opened : t.opened ≡ s.opened + k
    pub freed : t.freed ≡ s.freed
    pub connected : t.connected ≡ s.connected

  -- The tries end with a context, without memory for one, or with the last one's error.
  pub data Tried (s : Redis) (n : ℕ) (o : Outcome Error Redis (Unit {0})) : Type 0 where
    done :
        (k : ℕ) (t : Redis)
        → k < n
        → Failing s.calls k
        → h.opens (s.calls + k) ≡ some 0
        → o ≡ returns tt t
        → t.redis_ctx ≡ some 0
        → Opened s (suc k) t
        → Tried s n o
    no_memory :
        (k : ℕ) (t : Redis)
        → k < n
        → Failing s.calls k
        → h.opens (s.calls + k) ≡ none
        → o ≡ throws cannot_allocate t
        → t.redis_ctx ≡ none
        → Opened s k t
        → Tried s n o
    given_up :
        (err : ℕ) (t : Redis)
        → Failing s.calls n
        → h.opens (s.calls + (n - 1)) ≡ some (suc err)
        → o ≡ throws (failed connecting (cause (suc err))) t
        → t.redis_ctx ≡ some (suc err)
        → Opened s n t
        → Tried s n o

  -- The connection after a failed try.
  abbrev tried : ℕ → ℕ → Redis → Redis
  tried i err s = logged (retry connecting i) (
      logged (failure connecting (cause (suc err)))
        (record s { redis_ctx = some (suc err); calls = suc s.calls; opened = suc s.opened }))

  loop-failed :
      (n i err : ℕ) (s : Redis)
      → h.opens s.calls ≡ some (suc err)
      → i < s.max_tries
      → connect_loop h (suc n) i s ≡ connect_loop h n (suc i) (tried i err s)
  unfolding connect_loop open_context connect_round say
  loop-failed n i err s e lt =
      let u = record s { redis_ctx = some (suc err); calls = suc s.calls; opened = suc s.opened } in
      rw e (ground (arith, report-print u {err = suc err} refl i connecting lt))

  loop-last :
      (n i err : ℕ) (s : Redis)
      → h.opens s.calls ≡ some (suc err)
      → s.max_tries ≤ i
      → connect_loop h (suc n) i s
        ≡ throws
            (failed connecting (cause (suc err)))
            (record s { redis_ctx = some (suc err); calls = suc s.calls; opened = suc s.opened })
  unfolding connect_loop open_context connect_round
  loop-last n i err s e le =
      let u = record s { redis_ctx = some (suc err); calls = suc s.calls; opened = suc s.opened } in
      rw e (ground (arith, report-throw u {err = suc err} refl i connecting le))

  shift : (c k : ℕ) {a : Option ℕ} → h.opens (suc c + k) ≡ a → h.opens (c + suc k) ≡ a
  shift c k e = let same : c + suc k ≡ suc c + k = omega arith in ap h.opens same ∙ e

  Opened-suc : (i err k : ℕ) (s t : Redis) → Opened (tried i err s) k t → Opened s (suc k) t
  Opened-suc i err k s t o = record {
    opened = omega (arith, o.opened);
    freed = o.freed;
    connected = o.connected;
  }

  -- A failed try, and how the tries after it end.
  Tried-suc :
      (i n err : ℕ) (s : Redis) (o : Outcome Error Redis (Unit {0}))
      → h.opens s.calls ≡ some (suc err)
      → Tried (tried i err s) (suc n) o
      → Tried s (suc (suc n)) o
  Tried-suc i n err s o e (done k t lt f a r ctx w) =
      done (suc k) t (omega arith) (Failing-suc s.calls k err e f) (shift s.calls k a) r ctx
        (Opened-suc i err (suc k) s t w)
  Tried-suc i n err s o e (no_memory k t lt f a r ctx w) =
      no_memory (suc k) t (omega arith) (Failing-suc s.calls k err e f) (shift s.calls k a) r ctx
        (Opened-suc i err k s t w)
  Tried-suc i n err s o e (given_up err' t f a r ctx w) =
      given_up err' t (Failing-suc s.calls (suc n) err e f)
        (let same : s.calls + (suc (suc n) - 1) ≡ suc s.calls + (suc n - 1) = omega arith in
          ap h.opens same ∙ a)
        r ctx (Opened-suc i err (suc n) s t w)

  one_try :
      (n i : ℕ) (s : Redis) (a : Option ℕ)
      → h.opens s.calls ≡ a
      → i + n ≡ s.max_tries
      → Tried s (suc n) (connect_loop h (suc n) i s)
  unfolding connect_loop open_context connect_round
  one_try n i s none e m =
      no_memory 0 (record s { redis_ctx = none; calls = suc s.calls }) (omega arith)
        (Failing-zero s.calls) (ap h.opens (add-zero s.calls) ∙ e) (rw e refl) refl
        (record { opened = omega arith; freed = refl; connected = refl })
  one_try n i s (some zero) e m =
      done 0 (record s { redis_ctx = some 0; calls = suc s.calls; opened = suc s.opened })
        (omega arith) (Failing-zero s.calls) (ap h.opens (add-zero s.calls) ∙ e) (rw e refl) refl
        (record { opened = omega arith; freed = refl; connected = refl })
  one_try zero i s (some (suc err)) e m =
      given_up err
        (record s { redis_ctx = some (suc err); calls = suc s.calls; opened = suc s.opened })
        (Failing-suc s.calls 0 err e (Failing-zero (suc s.calls)))
        (ap h.opens (add-zero s.calls) ∙ e) (loop-last 0 i err s e (omega arith)) refl
        (record { opened = omega arith; freed = refl; connected = refl })
  one_try (suc n) i s (some (suc err)) e m =
      subst (Tried s (suc (suc n))) (sym (loop-failed (suc n) i err s e (omega arith))) (
        Tried-suc i n err s _ e
          (one_try n (suc i) (tried i err s) (h.opens (suc s.calls)) refl (omega arith)))

  connect_tries : (n : ℕ) (s : Redis) → 0 < n → n ≡ s.max_tries → Tried s n (connect_loop h n 1 s)
  connect_tries zero s pos e = absurd (omega arith)
  connect_tries (suc n) s pos e = one_try n 1 s (h.opens s.calls) refl (omega arith)

  -- `connect` on a null context: it ends with the first try that gets a context without an error,
  -- or throws at the first without memory, or after the last.
  pub data Connects (s : Redis) (n : ℕ) (o : Outcome Error Redis (Unit {0})) : Type 0 where
    connects :
        (k : ℕ) (t : Redis)
        → k < n
        → Failing s.calls k
        → h.opens (s.calls + k) ≡ some 0
        → o ≡ returns tt t
        → is_some t.redis_ctx ≡ true
        → t.connected ≡ true
        → t.opened ≡ s.opened + suc k
        → t.freed ≡ s.freed
        → Connects s n o
    lacks_memory :
        (k : ℕ) (t : Redis)
        → k < n
        → Failing s.calls k
        → h.opens (s.calls + k) ≡ none
        → o ≡ throws cannot_allocate t
        → t.redis_ctx ≡ none
        → Opened s k t
        → Connects s n o
    gives_up :
        (err : ℕ) (t : Redis)
        → Failing s.calls n
        → h.opens (s.calls + (n - 1)) ≡ some (suc err)
        → o ≡ throws (failed connecting (cause (suc err))) t
        → t.redis_ctx ≡ some (suc err)
        → Opened s n t
        → Connects s n o

  -- The end of `connect`, after its tries.
  abbrev finish : M (Unit {0})
  finish = keep_alive h >> (say established >> set_connected true)

  record Finished (t u : Redis) : Type 0 where
    returned : finish t ≡ returns tt u
    has_context : is_some u.redis_ctx ≡ true
    is_connected : u.connected ≡ true
    opened : u.opened ≡ t.opened
    freed : u.freed ≡ t.freed

  finish_lem : (t : Redis) → t.redis_ctx ≡ some 0 → (u : Redis) × Finished t u
  unfolding keep_alive say set_connected
  finish_lem t has = elim (Option-cases (h.keeps_alive t.calls)) [
    | inl e ↦
        let u = record t {
          redis_ctx = some 0;
          connected = true;
          calls = suc t.calls;
          log = established ∷ t.log;
        } in
        (
          u,
          record {
            returned = ground arith;
            has_context = refl;
            is_connected = refl;
            opened = refl;
            freed = refl;
          },
        )
    | inr (err, e) ↦
        let v = record t { redis_ctx = some err; calls = suc t.calls } in
        let u = record v {
          connected = true;
          log = established ∷ failure socket_setting (cause err) ∷ t.log;
        } in
        (
          u,
          record {
            returned = ground (arith, print_lem v {err = err} refl socket_setting);
            has_context = refl;
            is_connected = refl;
            opened = refl;
            freed = refl;
          },
        )
  ]

  Connects-Tried :
      (s : Redis) (n : ℕ) (o : Outcome Error Redis (Unit {0}))
      → Tried (logged (started connecting) s) n o
      → Connects s n (((λ _. o) >> finish) s)
  Connects-Tried s n o (done k t lt f a r ctx w) =
      let (u, p) = finish_lem t ctx in
      connects k u lt f a (rw r p.returned) p.has_context p.is_connected (p.opened ∙ w.opened)
        (p.freed ∙ w.freed)
  Connects-Tried s n o (no_memory k t lt f a r ctx w) =
      lacks_memory k t lt f a (rw r refl) ctx
        (record { opened = w.opened; freed = w.freed; connected = w.connected })
  Connects-Tried s n o (given_up err t f a r ctx w) =
      gives_up err t f a (rw r refl) ctx
        (record { opened = w.opened; freed = w.freed; connected = w.connected })

  -- Connect on a null context, with at least one try allowed, is connected to the first context
  -- without an error, after tries that each gave one with an error, or throws for want of memory
  -- at the first null context, or throws the error of the last try where all had one; the contexts
  -- that failed tries opened are never freed.
  pub connect-Connects :
      (s : Redis) → s.redis_ctx ≡ none → 0 < s.max_tries → Connects s s.max_tries (connect h s)
  unfolding connect say
  connect-Connects s null pos =
      let u = logged (started connecting) s in
      let rest : M (Unit {0}) = (λ v. connect_loop h v.max_tries 1 v) >> finish in
      let first : (require_null >> rest) u ≡ rest u =
        ap (λ o. ((λ _. o) >> rest) u) (require_null-return u null) in
      subst (Connects s s.max_tries) (sym first) (
        Connects-Tried s s.max_tries (connect_loop h s.max_tries 1 u)
          (connect_tries s.max_tries u pos refl))
