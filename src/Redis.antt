-- ===== src/Redis.antt =====
-- The connection to Redis: src/redis/redis_base.h and redis_base.cpp. The C library hiredis is a
-- parameter: what each of its calls answers, by the number of calls before it. A context stands as
-- its error code, 0 for none. Waiting between two tries, the options, and the texts of the messages
-- are left out.
pub mod Adapter
pub mod Errors
pub mod Keeps
pub mod Safety
pub mod Calls
pub mod Histories
pub mod Attempts
pub mod Reading
pub mod Refusal
pub mod Recovery
pub mod SecondTry
use x_cache_manager.Prelude.{
  ℕ, zero, suc, ◌/◌, ◌%◌, ◌≡◌, Bool, true, false, ◌||◌, List, [], ◌∷◌, Option, none, some, ◌⊎◌, inl,
  inr, Str, ltb, ◌==◌, if◌then◌else◌, is_some, Outcome, Exec, returns, throws, undefined, ◌>>=◌,
  ◌>>◌, pure, raise,
}
use x_cache_manager.Prelude.Integer.{ℤ}

-- `redisReply`, by its type. The value of a double is the library's.
mutual
  pub data Reply : Type 0 where
    string : Str → Reply
    array : Replies → Reply
    integer : ℤ → Reply
    nil : Reply
    status : Str → Reply
    error : Str → Reply
    double : ℕ → Str → Reply
    other : ℕ → Reply

  pub data Replies : Type 0 where
    end : Replies
    item : Reply → Replies → Replies

-- What hiredis answers to its n-th call. A new context, or NULL; the error of a context that is
-- connected again, or of its socket's option (`none` is REDIS_OK); the reply to a command on a
-- context with a given error, or the error that there is instead.
pub record Hiredis : Type 0 where
  pub opens : ℕ → Option ℕ
  pub reopens : ℕ → Option ℕ
  pub keeps_alive : ℕ → Option ℕ
  pub answers : ℕ → ℕ → Reply ⊎ ℕ

-- REDIS_ERR_IO and REDIS_ERR_EOF.
abbrev pub err_io : ℕ
err_io = 1

abbrev pub err_eof : ℕ
err_eof = 3

abbrev pub except_print : ℕ
except_print = 1

abbrev pub except_throw : ℕ
except_throw = 2

-- How the texts of the errors begin, and what `proc_error` adds.
pub data Stage : Type 0 where
  connecting reconnecting commanding socket_setting : Stage

pub data Cause : Type 0 where
  io_error unknown : Cause
  named : ℕ → Cause

pub data Error : Type 0 where
  context_not_null cannot_allocate context_null : Error
  failed : Stage → Cause → Error
  unexpected_type : ℕ → Error

-- What is logged.
pub data Entry : Type 0 where
  started : Stage → Entry
  established closed : Entry
  failure : Stage → Cause → Entry
  retry : Stage → ℕ → Entry
  resetting retry_by_adapter : Entry
  caught : Error → Entry

-- `opened` and `freed` count the contexts that the library gave and got back; `log` has the last
-- entry first.
pub record Redis : Type 0 where
  pub max_tries : ℕ
  pub redis_ctx : Option ℕ
  pub connected : Bool
  pub calls : ℕ
  pub opened : ℕ
  pub freed : ℕ
  pub log : List Entry

abbrev pub M : Type 0 → Type 0
M A = Exec Error Redis A

-- The constructor. Its `max_rt` is taken to be at least -1, and given one higher.
unfoldable pub construct : ℕ → Redis
construct max_tries = record {
  max_tries = max_tries;
  redis_ctx = none;
  connected = false;
  calls = 0;
  opened = 0;
  freed = 0;
  log = [];
}

unfoldable pub say : Entry → M (Unit {0})
say e s = returns tt (record s { log = e ∷ s.log })

unfoldable pub set_connected : Bool → M (Unit {0})
set_connected b s = returns tt (record s { connected = b })

unfoldable pub cause : ℕ → Cause
cause err = if err == err_io then io_error else if err == 0 then unknown else named err

abbrev pub when : Bool → M (Unit {0}) → M (Unit {0})
when true m = m
when false m = pure tt

-- `redis_ctx->err`; a null context has none.
abbrev pub with_error : {A : Type 0} → (ℕ → M A) → M A
with_error f s = elim s.redis_ctx [ none ↦ undefined | some err ↦ f err s ]

unfoldable pub proc_error : ℕ → Stage → M (Unit {0})
proc_error flag stage = with_error λ err. do
  when (flag % 2 == 1) (say (failure stage (cause err)))
  when (flag / 2 % 2 == 1) (raise (failed stage (cause err)))

-- `if(i < max_tries)proc_error(EXCEPT_PRINT, ...); else proc_error(EXCEPT_THROW, ...)`.
unfoldable pub report : ℕ → Stage → M (Unit {0})
report i stage s = proc_error (if ltb i s.max_tries then except_print else except_throw) stage s

unfoldable pub disconnect : M (Unit {0})
disconnect s = elim s.redis_ctx [
  | none ↦ returns tt s
  | some err ↦
      (say closed >> set_connected false) (record s { redis_ctx = none; freed = suc s.freed })
]

unfoldable pub require_null : M (Unit {0})
require_null s = if is_some s.redis_ctx then throws context_not_null s else returns tt s

unfoldable pub require_context : M (Unit {0})
require_context s = if is_some s.redis_ctx then returns tt s else throws context_null s

-- The rest of a round of `connect`, with the rounds after it.
unfoldable pub connect_round : ℕ → M (Unit {0}) → Option ℕ → M (Unit {0})
connect_round i rest none = raise cannot_allocate
connect_round i rest (some err) =
    if err == 0 then pure tt else do report i connecting; say (retry connecting i); rest

unfoldable pub reconnect_round : ℕ → M (Unit {0}) → Bool → M (Unit {0})
reconnect_round i rest true = pure tt
reconnect_round i rest false = do report i reconnecting; say (retry reconnecting i); rest

unfoldable pub last_try : ℕ → M (Unit {0})
last_try i s = if i == s.max_tries then proc_error except_throw commanding s else returns tt s

module _ (h : Hiredis) where
  -- `redis_ctx = redisConnectWithOptions(&redis_opt)`.
  unfoldable pub open_context : M (Option ℕ)
  open_context s =
      let ctx = h.opens s.calls in
      returns ctx (record s {
        redis_ctx = ctx;
        calls = suc s.calls;
        opened = if is_some ctx then suc s.opened else s.opened;
      })

  -- `for(int i = 1; i <= max_tries; i++)`, with the rounds that are left.
  unfoldable pub connect_loop : ℕ → ℕ → M (Unit {0})
  connect_loop zero i = pure tt
  connect_loop (suc n) i = open_context >>= connect_round i (connect_loop n (suc i))

  unfoldable pub keep_alive : M (Unit {0})
  keep_alive = with_error λ err s. elim (h.keeps_alive s.calls) [
    | none ↦ returns tt (record s { calls = suc s.calls })
    | some e ↦
        proc_error except_print socket_setting
          (record s { redis_ctx = some e; calls = suc s.calls })
  ]

  unfoldable pub connect : M (Unit {0})
  connect = do
    say (started connecting)
    require_null
    λ s. connect_loop s.max_tries 1 s
    keep_alive
    say established
    set_connected true

  -- `redisReconnect(redis_ctx) == REDIS_OK`.
  unfoldable pub reopen : M Bool
  reopen s = elim (h.reopens s.calls) [
    | none ↦ returns true (record s { redis_ctx = some 0; calls = suc s.calls })
    | some e ↦ returns false (record s { redis_ctx = some e; calls = suc s.calls })
  ]

  unfoldable pub reconnect_loop : ℕ → ℕ → M (Unit {0})
  reconnect_loop zero i = pure tt
  reconnect_loop (suc n) i = reopen >>= reconnect_round i (reconnect_loop n (suc i))

  unfoldable pub reconnect : M (Unit {0})
  reconnect = do
    say (started reconnecting)
    set_connected false
    require_context
    λ s. reconnect_loop s.max_tries 1 s
    say established
    set_connected true

  -- `redisCommand(redis_ctx, ...)`, which reads the context.
  unfoldable pub ask : M (Option Reply)
  ask = with_error λ err s. elim (h.answers s.calls err) [
    | inl reply ↦ returns (some reply) (record s { calls = suc s.calls })
    | inr e ↦ returns none (record s { redis_ctx = some e; calls = suc s.calls })
  ]

  unfoldable pub reconnect_if_lost : M (Unit {0})
  reconnect_if_lost = with_error λ err. when (err == err_io || err == err_eof) reconnect

  unfoldable pub command_round : ℕ → M Reply → Option Reply → M Reply
  command_round i rest (some reply) = pure reply
  command_round i rest none = do
    proc_error except_print commanding
    last_try i
    reconnect_if_lost
    say (retry commanding i)
    rest

  -- Without a round left the function ends with no value.
  unfoldable pub command_loop : ℕ → ℕ → M Reply
  command_loop zero i s = undefined
  command_loop (suc n) i s = (ask >>= command_round i (command_loop n (suc i))) s

  unfoldable pub command : M Reply
  command s = command_loop s.max_tries 1 s
