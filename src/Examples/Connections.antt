-- ===== src/Examples/Connections.antt =====
-- Runs of the connection and the adapter of src/redis, and their theorems at these inputs.
use x_cache_manager.Prelude.{
  ℕ, zero, suc, ◌*◌, ◌≤◌, ◌≡◌, refl, true, false, [], ◌∷◌, Option, none, some, inl, inr, arith,
  ◌==◌, if◌then◌else◌, is_some,
}
use x_cache_manager.Prelude.Integer.{pos}
use x_cache_manager.Redis
use x_cache_manager.Redis.{
  Reply, string, array, integer, end, item, Hiredis, connecting, reconnecting, commanding, failed,
  io_error, named, Redis, construct, connect, command,
}
use x_cache_manager.Redis.Adapter.{as_integer, command_impl}
use x_cache_manager.Redis.Attempts.{Connects, connect-Connects}
use x_cache_manager.Redis.Keeps.{Holds}
use x_cache_manager.Redis.Histories.{initialize, resets, single, history, cost, adapter_history}
use x_cache_manager.Redis.Refusal.{Sticky}
use x_cache_manager.Redis.Recovery.{Healthy, Healthy-later}
use x_cache_manager.Redis.SecondTry.{Settled, recoverable, command_impl-outcome}

program : Unit {0}
unfolding construct Redis.say Redis.set_connected Redis.cause Redis.proc_error Redis.report
    Redis.disconnect Redis.require_null Redis.require_context Redis.open_context Redis.connect_round
    Redis.connect_loop Redis.keep_alive connect Redis.reopen Redis.reconnect_round
    Redis.reconnect_loop Redis.reconnect Redis.ask Redis.last_try Redis.reconnect_if_lost
    Redis.command_round Redis.command_loop command command_impl
program = tt

-- "a" and 1.
abbrev sample : Reply
sample = array (item (string (b'a' ∷ [])) (item (integer (pos 1)) end))

abbrev first_fails : ℕ → Option ℕ
first_fails zero = some 1
first_fails (suc n) = some 0

-- A server whose first connection fails, and which answers on every context without an error.
abbrev server : Hiredis
server = record {
  opens = first_fails;
  reopens = λ n. none;
  keeps_alive = λ n. none;
  answers = λ n err. if err == 0 then inl sample else inr err;
}

server-Sticky : Sticky server
server-Sticky n e ne = ground arith

allocates : (n : ℕ) → is_some (first_fails n) ≡ true
allocates zero = refl
allocates (suc n) = refl

later_opens : (n : ℕ) → 1 ≤ n → first_fails n ≡ some 0
later_opens zero le = absurd (omega arith)
later_opens (suc n) le = refl

server-Healthy : Healthy server 1
server-Healthy = record {
  opens = later_opens;
  reopens = λ n le. refl;
  keeps_alive = λ n le. refl;
  answers = λ n le. (sample, refl);
}

abbrev unconnected : Redis
unconnected = record {
  max_tries = 3;
  redis_ctx = none;
  connected = false;
  calls = 0;
  opened = 0;
  freed = 0;
  log = [];
}

constructed : construct 3 ≡ unconnected
unfolding program
constructed = refl

connect-Connects_example : Connects server unconnected 3 (connect server unconnected)
connect-Connects_example = connect-Connects server unconnected refl (omega arith)

adapter_history_example :
    (t : Redis) × (history server true (initialize ∷ single as_integer ∷ resets ∷ []) (construct 3)
      ≡ some t)
    × Holds 3 t
    × (t.calls ≤ 3 * cost 3)
adapter_history_example =
    adapter_history server allocates 3 (omega arith) true (single as_integer ∷ resets ∷ [])

-- After the connection was lost.
abbrev lost : Redis
lost = record unconnected { redis_ctx = some 3; connected = true; calls = 2; opened = 2 }

abbrev found_again : Redis
found_again = record lost {
  redis_ctx = some 0;
  calls = 5;
  log =
      Redis.retry commanding 1
      ∷ Redis.established
      ∷ Redis.started reconnecting
      ∷ Redis.failure commanding (named 3)
      ∷ [];
}

command_impl-outcome_example :
    Settled 3 lost (recoverable false 3 lost) (command_impl server false lost)
command_impl-outcome_example =
    command_impl-outcome server server-Sticky false lost 3 refl (omega arith)
      (λ _. Healthy-later server-Healthy (omega arith))
