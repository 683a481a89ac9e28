-- ===== src/Redis/Errors.antt =====
-- What `proc_error` of src/redis/redis_base.cpp does on a connection that has a context.
use x_cache_manager.Prelude.{
  ℕ, suc, ◌≡◌, refl, true, false, ◌∷◌, none, some, arith, ◌==◌, returns, throws, lt→ltb, le→ltb,
  ◌≤◌, ◌<◌,
}
use x_cache_manager.Redis.{
  Stage, failed, Entry, failure, Redis, say, cause, proc_error, report, except_print, except_throw,
  last_try, commanding, require_null, require_context, disconnect, closed, set_connected,
  context_not_null,
}

-- The connection with one more entry in its log.
abbrev pub logged : Entry → Redis → Redis
logged e s = record s { log = e ∷ s.log }

pub say_lem : (e : Entry) (s : Redis) → say e s ≡ returns tt (logged e s)
unfolding say
say_lem e s = refl

eq_of : (i n : ℕ) → i ≡ n → (i == n) ≡ true
eq_of i n e = ground arith

ne_of : (i n : ℕ) → i < n → (i == n) ≡ false
ne_of i n lt = ground arith

module _ (s : Redis) {err : ℕ} (has : s.redis_ctx ≡ some err) where
  pub print_lem :
      (stage : Stage)
      → proc_error except_print stage s ≡ returns tt (logged (failure stage (cause err)) s)
  unfolding proc_error say
  print_lem stage = rw has refl

  pub throw_lem :
      (stage : Stage) → proc_error except_throw stage s ≡ throws (failed stage (cause err)) s
  unfolding proc_error say
  throw_lem stage = rw has refl

  pub report-print :
      (i : ℕ) (stage : Stage)
      → i < s.max_tries
      → report i stage s ≡ returns tt (logged (failure stage (cause err)) s)
  unfolding report
  report-print i stage lt = rw (lt→ltb i s.max_tries lt) (print_lem stage)

  pub report-throw :
      (i : ℕ) (stage : Stage)
      → s.max_tries ≤ i
      → report i stage s ≡ throws (failed stage (cause err)) s
  unfolding report
  report-throw i stage le = rw (le→ltb i s.max_tries le) (throw_lem stage)

  pub last_try-throw :
      (i : ℕ) → i ≡ s.max_tries → last_try i s ≡ throws (failed commanding (cause err)) s
  unfolding last_try
  last_try-throw i e = rw (eq_of i s.max_tries e) (throw_lem commanding)

  pub last_try-go_on : (i : ℕ) → i < s.max_tries → last_try i s ≡ returns tt s
  unfolding last_try
  last_try-go_on i lt = rw (ne_of i s.max_tries lt) refl

  pub require_null-throw : require_null s ≡ throws context_not_null s
  unfolding require_null
  require_null-throw = rw has refl

  pub require_context-return : require_context s ≡ returns tt s
  unfolding require_context
  require_context-return = rw has refl

  -- The connection after a disconnection.
  pub disconnect_lem :
      disconnect s
      ≡ returns tt (record s {
        redis_ctx = none;
        connected = false;
        freed = suc s.freed;
        log = closed ∷ s.log;
      })
  unfolding disconnect say set_connected
  disconnect_lem = rw has refl

pub require_null-return : (s : Redis) → s.redis_ctx ≡ none → require_null s ≡ returns tt s
unfolding require_null
require_null-return s null = rw null refl
