-- ===== src/Subscriber.antt =====
-- The subscription: src/redis/redis_subscriber.h and redis_subscriber.cpp. One thread calls
-- `connect`, whose event loop runs without the lock `connect_lock`; another calls `init`,
-- `subscribe` and `uninit`, which sleeps without the lock. So a run is a sequence of steps, each
-- with the lock or in the event loop. What hiredis and libevent answer is a parameter of a step;
-- hiredis frees an asynchronous context after the callback of a failed connection or of a
-- disconnection. Addresses, options and what is logged are left out.

pub mod Steps
pub mod Replies
use x_cache_manager.Prelude.{
  ℕ, zero, suc, ◌≡◌, ◌≢◌, Bool, true, false, ◌==◌, if◌then◌else◌, Outcome, Exec, returns, throws,
  undefined, ◌>>=◌, ◌>>◌, pure, raise,
}
use x_cache_manager.Prelude.Integer.{ℤ, pos, negsuc}

-- `manager->redis_ctx`: NULL, a context that hiredis owns, or one that it has freed.
pub data Context : Type 0 where
  null live freed : Context

-- The thread of `connect`: outside, in the event loop, or behind it without the lock.
pub data Loop : Type 0 where
  away dispatching returned : Loop

-- The thread of `uninit`: outside, asleep in `cv.wait`, or woken without the lock.
pub data Stopper : Type 0 where
  outside waiting woken : Stopper

pub data Error : Type 0 where
  event_base_failed null_context connection_failed : Error
  init_failed : ℤ → Error

-- How `redisAsyncConnectWithOptions` and `redisLibeventAttach` end, with the context's error.
pub data Start : Type 0 where
  no_context attached : Start
  context_error attach_error : ℕ → Start

-- `SubManager` with its `RedisSub`: `redis` says whether the pointer is set, and with it the event
-- base is there.
pub record Manager : Type 0 where
  pub redis : Bool
  pub redis_ctx : Context
  pub status : ℤ
  pub running : Bool
  pub loop : Loop
  pub stopper : Stopper

abbrev pub M : Type 0 → Type 0
M A = Exec Error Manager A

-- The constructor; `status` and `running` are set by `init`.
unfoldable pub construct : Manager
construct = record {
  redis = false;
  redis_ctx = null;
  status = pos 0;
  running = false;
  loop = away;
  stopper = outside;
}

-- `init`, with the constructor of `RedisSub`, which makes the event base or throws.
unfoldable pub init : Bool → M (Unit {0})
init makes_base s =
    let t = record s { status = pos 0; running = false; redis_ctx = null } in
    if makes_base then returns tt (record t { redis = true }) else throws event_base_failed t

-- `RedisSub::connect`.
unfoldable pub sub_connect : Start → M ℤ
sub_connect no_context s = returns (negsuc 0) (record s { redis_ctx = null })
sub_connect (context_error err) s = returns (pos err) (record s { redis_ctx = null })
sub_connect (attach_error err) s = returns (pos err) (record s { redis_ctx = null })
sub_connect attached s = returns (pos 0) (record s { redis_ctx = live })

unfoldable pub is_zero : ℤ → Bool
is_zero (pos n) = n == 0
is_zero (negsuc n) = false

unfoldable pub set_running : Bool → M (Unit {0})
set_running b s = returns tt (record s { running = b })

-- After `redis->connect()`: an exception, or the event loop.
unfoldable pub enter_loop : ℤ → M (Unit {0})
enter_loop res s =
    if is_zero res
    then returns tt (record s { loop = dispatching })
    else throws (init_failed res) (record s { running = false })

-- `SubManager::connect` up to `redis->run()`.
unfoldable pub connect : Start → M (Unit {0})
connect start s =
    if s.redis then (set_running true >> (sub_connect start >>= enter_loop)) s else returns tt s

-- `connect_callback`, after which hiredis frees the context of a failed connection.
unfoldable pub connect_callback : Bool → Manager → Manager
connect_callback true s = record s { status = pos 1 }
connect_callback false s = record s { status = negsuc 0; redis_ctx = freed }

-- `disconnect_callback`, after which hiredis frees the context.
unfoldable pub disconnect_callback : Bool → Manager → Manager
disconnect_callback true s = record s { status = pos 0; redis_ctx = freed }
disconnect_callback false s = record s { status = negsuc 0; redis_ctx = freed }

-- The end of `redis->run()`.
unfoldable pub leave_loop : Manager → Manager
leave_loop s = record s { loop = returned }

-- `cv.notify_one()`.
abbrev pub wake : Stopper → Stopper
wake waiting = woken
wake p = p

unfoldable pub is_failure : ℤ → Bool
is_failure (negsuc n) = n == 0
is_failure (pos n) = false

-- The rest of `SubManager::connect`, with the lock.
unfoldable pub connect_end : M (Unit {0})
connect_end s =
    let t = record s { running = false; loop = away; stopper = wake s.stopper } in
    if is_failure s.status then throws connection_failed t else returns tt t

abbrev pub is_dispatching : Loop → Bool
is_dispatching dispatching = true
is_dispatching p = false

-- `free`, with the destructor of `RedisSub`: the event base must not be in use.
unfoldable pub free : M (Unit {0})
free s =
    if is_dispatching s.loop
    then undefined
    else returns tt (record s { redis = false; redis_ctx = null; status = pos 0 })

-- `RedisSub::disconnect`; the context is freed later, by the event loop.
unfoldable pub disconnect_at : Context → M (Unit {0})
disconnect_at null s = returns tt s
disconnect_at live s = returns tt s
disconnect_at freed s = undefined

unfoldable pub disconnect : M (Unit {0})
disconnect s = disconnect_at s.redis_ctx s

-- `uninit`, up to `cv.wait` where the loop runs.
unfoldable pub uninit : M (Unit {0})
uninit s =
    if s.redis
    then if s.running
      then (disconnect >> λ t. returns tt (record t { stopper = waiting })) s
      else free s
    else returns tt s

-- `uninit` after `cv.wait`.
unfoldable pub uninit_end : M (Unit {0})
uninit_end s = free (record s { stopper = outside })

-- `RedisSub::subscribe`, with what `redisAsyncCommand` answers.
unfoldable pub subscribe_at : Context → ℤ → M ℤ
subscribe_at null res s = throws null_context s
subscribe_at live res s = returns res s
subscribe_at freed res s = undefined

unfoldable pub subscribe : ℤ → M ℤ
subscribe res s = if s.redis then subscribe_at s.redis_ctx res s else returns (negsuc 0) s

-- The state after a call that returned or threw.
abbrev pub After : {A : Type 0} → Outcome Error Manager A → Manager → Type 0
After (returns a t) u = t ≡ u
After (throws e t) u = t ≡ u
After undefined u = ⊥

-- The steps of the two threads, as the header asks for them: `init` where there is no `RedisSub`,
-- and `connect` neither twice at once nor while `uninit` sleeps.
pub data Step (s t : Manager) : Type 0 where
  inits :
      (makes_base : Bool)
      → s.redis ≡ false
      → s.loop ≡ away
      → s.stopper ≡ outside
      → After (init makes_base s) t
      → Step s t
  connects :
      (start : Start) → s.loop ≡ away → s.stopper ≡ outside → After (connect start s) t → Step s t
  connected :
      (res : Bool)
      → s.loop ≡ dispatching
      → s.redis_ctx ≡ live
      → connect_callback res s ≡ t
      → Step s t
  disconnected :
      (res : Bool)
      → s.loop ≡ dispatching
      → s.redis_ctx ≡ live
      → disconnect_callback res s ≡ t
      → Step s t
  leaves : s.loop ≡ dispatching → s.redis_ctx ≢ live → leave_loop s ≡ t → Step s t
  ends : s.loop ≡ returned → After (connect_end s) t → Step s t
  uninits : s.stopper ≡ outside → After (uninit s) t → Step s t
  finishes : s.stopper ≡ woken → After (uninit_end s) t → Step s t
  subscribes : (res : ℤ) → s.stopper ≡ outside → After (subscribe res s) t → Step s t

pub data Run (s : Manager) : Manager → Type 0 where
  start : Run s s
  next : {t u : Manager} → Run s t → Step t u → Run s u
