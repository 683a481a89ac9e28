-- ===== src/Redis/Recovery.antt =====
-- Which errors of a context the calls of the adapter get over when the server is back:
-- src/redis/redis_base.h and `command_impl` of redis_adapter.h.
use x_cache_manager.Prelude.{
  ℕ, zero, suc, ◌≤◌, ◌<◌, ◌≡◌, ◌≢◌, refl, ◌∙◌, true, false, ◌||◌, none, some, inl, arith, ◌∷◌, ◌==◌,
  Outcome, returns, ◌>>◌, bind-returns,
}
use x_cache_manager.Redis.Errors.{
  require_context-return, say_lem, logged, disconnect_lem, require_null-return, say_lem, logged,
  disconnect_lem, require_null-return,
}
use x_cache_manager.Redis.{
  Reply, Hiredis, resetting, closed, connecting, reconnecting, commanding, Error, started, retry,
  Redis, say, set_connected, require_null, open_context, connect_round, connect_loop, keep_alive,
  connect, established, command_loop, command_round, ask, reconnect_if_lost, reconnect,
  reconnect_loop, reconnect_round, reopen, require_context, disconnect,
}
use x_cache_manager.Redis.Adapter.{reset}
use x_cache_manager.Redis.Refusal.{Sticky, handled, printed, middle_round}

-- From the call `c` on, the server answers, and is reached.
pub record Healthy (h : Hiredis) (c : ℕ) : Type 0 where
  pub opens : (n : ℕ) → c ≤ n → h.opens n ≡ some 0
  pub reopens : (n : ℕ) → c ≤ n → h.reopens n ≡ none
  pub keeps_alive : (n : ℕ) → c ≤ n → h.keeps_alive n ≡ none
  pub answers : (n : ℕ) → c ≤ n → (r : Reply) × (h.answers n 0 ≡ inl r)

pub Healthy-later : {h : Hiredis} {c d : ℕ} → Healthy h c → c ≤ d → Healthy h d
Healthy-later w le = record {
  opens = λ n l. w.opens n (omega arith);
  reopens = λ n l. w.reopens n (omega arith);
  keeps_alive = λ n l. w.keeps_alive n (omega arith);
  answers = λ n l. w.answers n (omega arith);
}

-- A usable context, as many tries as before, and no call taken back.
pub record Ready (s t : Redis) : Type 0 where
  pub redis_ctx : t.redis_ctx ≡ some 0
  pub max_tries : t.max_tries ≡ s.max_tries
  pub calls : s.calls ≤ t.calls

abbrev pub Replied : Redis → Outcome Error Redis Reply → Type 0
Replied s o = (r : Reply) × (t : Redis) × (o ≡ returns r t) × Ready s t

abbrev pub Restored : Redis → Outcome Error Redis (Unit {0}) → Type 0
Restored s o = (t : Redis) × (o ≡ returns tt t) × Ready s t

module _ (h : Hiredis) where
  ask-replied :
      (s : Redis) (r : Reply)
      → s.redis_ctx ≡ some 0
      → h.answers s.calls 0 ≡ inl r
      → ask h s ≡ returns (some r) (record s { redis_ctx = some 0; calls = suc s.calls })
  unfolding ask
  ask-replied s r has e = ground arith

  loop-Replied :
      (n i : ℕ) (s : Redis)
      → s.redis_ctx ≡ some 0
      → Healthy h s.calls
      → Replied s (command_loop h (suc n) i s)
  unfolding command_loop command_round
  loop-Replied n i s has w =
      let (r, e) = w.answers s.calls (omega arith) in
      let t = record s { redis_ctx = some 0; calls = suc s.calls } in
      (
        r,
        t,
        bind-returns (ask h) (command_round h i (command_loop h n (suc i))) s t (some r)
            (ask-replied s r has e),
        record { redis_ctx = refl; max_tries = refl; calls = omega arith },
      )

  reopen-done :
      (s : Redis)
      → h.reopens s.calls ≡ none
      → reopen h s ≡ returns true (record s { redis_ctx = some 0; calls = suc s.calls })
  unfolding reopen
  reopen-done s e = ground arith

  reconnect_tries :
      (n : ℕ) (s : Redis)
      → 0 < n
      → Healthy h s.calls
      → reconnect_loop h n 1 s ≡ returns tt (record s { redis_ctx = some 0; calls = suc s.calls })
  unfolding reconnect_loop reconnect_round
  reconnect_tries zero s pos w = absurd (omega arith)
  reconnect_tries (suc n) s pos w =
      bind-returns (reopen h) (reconnect_round 1 (reconnect_loop h n 2)) s _ true
        (reopen-done s (w.reopens s.calls (omega arith)))

  reconnect-Restored :
      (s : Redis) {err : ℕ}
      → s.redis_ctx ≡ some err
      → 0 < s.max_tries
      → Healthy h s.calls
      → Restored s (reconnect h s)
  unfolding reconnect say set_connected require_context
  reconnect-Restored s {err} has pos w =
      let u = record s { connected = false; log = started reconnecting ∷ s.log } in
      (
        record s {
          redis_ctx = some 0;
          connected = true;
          calls = suc s.calls;
          log = established ∷ started reconnecting ∷ s.log;
        },
        bind-returns require_context _ u u tt (require_context-return u {err = err} has)
            ∙ bind-returns (λ v. reconnect_loop h v.max_tries 1 v)
                (λ _. say established >> set_connected true) u _ tt
                (reconnect_tries u.max_tries u pos w),
        record { redis_ctx = refl; max_tries = refl; calls = omega arith },
      )

  connect_tries :
      (n : ℕ) (s : Redis)
      → 0 < n
      → Healthy h s.calls
      → connect_loop h n 1 s
        ≡ returns tt (record s { redis_ctx = some 0; calls = suc s.calls; opened = suc s.opened })
  unfolding connect_loop open_context connect_round
  connect_tries zero s pos w = absurd (omega arith)
  connect_tries (suc n) s pos w = rw (w.opens s.calls (omega arith)) refl

  keep_alive-quiet :
      (s : Redis)
      → s.redis_ctx ≡ some 0
      → h.keeps_alive s.calls ≡ none
      → keep_alive h s ≡ returns tt (record s { calls = suc s.calls })
  unfolding keep_alive
  keep_alive-quiet s has e = ground arith

  connect-Restored :
      (s : Redis)
      → s.redis_ctx ≡ none
      → 0 < s.max_tries
      → Healthy h s.calls
      → Restored s (connect h s)
  unfolding connect say set_connected
  connect-Restored s null pos w =
      let u = logged (started connecting) s in
      let v = record u { redis_ctx = some 0; calls = suc s.calls; opened = suc s.opened } in
      let x = record v { calls = suc (suc s.calls) } in
      (
        logged established (record x { connected = true }),
        bind-returns require_null _ u u tt (require_null-return u null)
            ∙ bind-returns (λ z. connect_loop h z.max_tries 1 z) _ u v tt
                (connect_tries u.max_tries u pos w)
            ∙ bind-returns (keep_alive h) _ v x tt
                (keep_alive-quiet v refl (w.keeps_alive v.calls (omega arith))),
        record { redis_ctx = refl; max_tries = refl; calls = omega arith },
      )

  pub reset-Restored :
      (s : Redis) {err : ℕ}
      → s.redis_ctx ≡ some err
      → 0 < s.max_tries
      → Healthy h s.calls
      → Restored s (reset h s)
  unfolding reset
  reset-Restored s {err} has pos w =
      let u = logged resetting s in
      let d = record u {
        redis_ctx = none;
        connected = false;
        freed = suc s.freed;
        log = closed ∷ resetting ∷ s.log;
      } in
      let (t, e, r) = connect-Restored d refl pos w in
      (
        t,
        bind-returns (say resetting) _ s u tt (say_lem resetting s)
            ∙ bind-returns disconnect _ u d tt (disconnect_lem u {err = err} has)
            ∙ e,
        record { redis_ctx = r.redis_ctx; max_tries = r.max_tries; calls = r.calls },
      )

  lost_lem :
      (s : Redis) (err : ℕ)
      → s.redis_ctx ≡ some err
      → (err == 1 || err == 3) ≡ true
      → reconnect_if_lost h s ≡ reconnect h s
  unfolding reconnect_if_lost
  lost_lem s err has e = rw (has, e) refl

  module _ (sticky : Sticky h) where
    lost_round :
        (n err : ℕ) (s : Redis)
        → s.redis_ctx ≡ some err
        → err ≢ 0
        → (err == 1 || err == 3) ≡ true
        → 1 < s.max_tries
        → Healthy h s.calls
        → Replied s (command_loop h (suc (suc n)) 1 s)
    lost_round n err s has broken lost many w =
        let p = printed h sticky broken s in
        let (t, e, r) =
          reconnect-Restored p {err = err} refl (omega arith) (Healthy-later w (omega arith)) in
        let u = logged (retry commanding 1) t in
        let (reply, v, e', r') =
          loop-Replied n 2 u r.redis_ctx (Healthy-later w (omega (arith, r.calls))) in
        (
          reply,
          v,
          middle_round h sticky broken (suc n) 1 s has many
              ∙ bind-returns (reconnect_if_lost h) _ p t tt (lost_lem p err refl lost ∙ e)
              ∙ bind-returns (say (retry commanding 1)) (λ _. command_loop h (suc n) 2) t u tt
                  (say_lem (retry commanding 1) t)
              ∙ e',
          record {
            redis_ctx = r'.redis_ctx;
            max_tries = r'.max_tries ∙ r.max_tries;
            calls = omega (arith, r.calls, r'.calls);
          },
        )

    -- A command on a usable context, or on one that it can connect again.
    pub command_rounds-Replied :
        (n err : ℕ) (s : Redis)
        → s.redis_ctx ≡ some err
        → suc n ≡ s.max_tries
        → handled (suc n) err ≡ true
        → Healthy h s.calls
        → Replied s (command_loop h (suc n) 1 s)
    command_rounds-Replied n zero s has e x w = loop-Replied n 1 s has w
    command_rounds-Replied zero (suc err) s has e x w = absurd (ground arith)
    command_rounds-Replied (suc n) (suc err) s has e x w =
        lost_round n (suc err) s has (omega arith) (ground arith) (omega arith) w
