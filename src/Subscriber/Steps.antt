-- ===== src/Subscriber/Steps.antt =====
-- What every run of the subscription keeps: src/redis/redis_subscriber.cpp.
use x_cache_manager.Prelude.{◌≡◌, ◌≢◌, Bool, true, false, not, if◌then◌else◌, ◌==◌, undefined}
use x_cache_manager.Prelude.Integer.{ℤ, pos, negsuc}
use x_cache_manager.Subscriber.{
  Context, live, freed, Loop, away, Stopper, waiting, woken, Start, Manager, connect, connect_end,
  is_dispatching, uninit, uninit_end, subscribe, connects, ends, uninits, finishes, subscribes,
}

abbrev pub is_away : Loop → Bool
is_away away = true
is_away p = false

abbrev pub is_live : Context → Bool
is_live live = true
is_live p = false

abbrev pub is_waiting : Stopper → Bool
is_waiting waiting = true
is_waiting p = false

abbrev pub is_woken : Stopper → Bool
is_woken woken = true
is_woken p = false

-- -1, 0 or 1.
abbrev pub is_status : ℤ → Bool
is_status (negsuc n) = n == 0
is_status (pos n) = if n == 0 then true else n == 1

-- `running` tells whether a thread is in `connect`, which has its `RedisSub`; one that waits for the
-- end of `connect` is going to be woken, and was not before.
pub record IsValid (s : Manager) : Type 0 where
  pub runs : s.running ≡ not (is_away s.loop)
  pub has_redis : is_away s.loop ≡ false → s.redis ≡ true
  pub awaited : is_waiting s.stopper ≡ true → is_away s.loop ≡ false
  pub finished : is_woken s.stopper ≡ true → is_away s.loop ≡ true
  pub dispatched : is_live s.redis_ctx ≡ true → is_dispatching s.loop ≡ true
  pub status : is_status s.status ≡ true

-- No call of a valid state is undefined, but on a context that hiredis has freed.
pub record IsSafe (s : Manager) : Type 0 where
  pub connects : (st : Start) → connect st s ≢ undefined
  pub ends : connect_end s ≢ undefined
  pub uninits : s.redis_ctx ≢ freed → uninit s ≢ undefined
  pub finishes : s.stopper ≡ woken → uninit_end s ≢ undefined
  pub subscribes : s.redis_ctx ≢ freed → (res : ℤ) → subscribe res s ≢ undefined
