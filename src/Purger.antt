-- ===== src/Purger.antt =====
-- The purger: src/utils/purger.h and purger.cpp. Its workers share a queue under a lock, so a run is
-- a sequence of steps: a caller adds a path, a worker takes a task, a worker ends its request, a
-- worker quits, the purger stops. The request itself is curl's: its answer is a parameter of the
-- step. `failed` and `succeeded` record what became of the tasks; `accepted` counts them.
pub mod Balance
use x_cache_manager.Prelude.{
  ℕ, zero, suc, ◌+◌, ◌-◌, ◌≡◌, Bool, true, false, ◌&&◌, ◌||◌, not, List, [], ◌∷◌, ◌++◌, Option,
  none, some, Str, str_eq, ltb, ◌==◌, if◌then◌else◌, is_empty, length, take, last?, drop_last,
}

-- A path, and how often it was tried.
abbrev pub Task : Type 0
Task = Str × ℕ

pub record Purger : Type 0 where
  pub server_name : Str
  pub queue_max : ℕ
  pub try_max : ℕ
  pub purge_queue : List Task
  pub in_flight : List Task
  pub stop_signal : Bool
  pub running_worker : ℕ
  pub accepted : ℕ
  pub failed : List Task
  pub succeeded : ℕ

abbrev pub slash : ℕ
slash = 47

-- "Key:".
abbrev pub valid_response : Str
valid_response = 75 ∷ 101 ∷ 121 ∷ 58 ∷ []

-- A slash at the end goes. `back()` of an empty name has no character to read.
unfoldable pub without_slash : Str → Option Str
without_slash srv = elim (last? srv) [
  | none ↦ none
  | some c ↦ if c == slash then some (drop_last srv) else some srv
]

-- The constructor, with all of its workers.
unfoldable pub construct : Str → ℕ → ℕ → ℕ → Option Purger
construct srv queue_max thread_max try_max = elim (without_slash srv) [
  | none ↦ none
  | some name ↦ some (record {
    server_name = name;
    queue_max = queue_max;
    try_max = try_max;
    purge_queue = [];
    in_flight = [];
    stop_signal = false;
    running_worker = thread_max;
    accepted = 0;
    failed = [];
    succeeded = 0;
  })
]

-- `emplace` of the path, which gets a slash in front.
unfoldable pub with_slash : ℕ → Str → Str
with_slash c path = if c == slash then c ∷ path else slash ∷ c ∷ path

-- `front()` of an empty path has no character to read.
unfoldable pub add_path : Str → Purger → Option (Bool × Purger)
add_path [] s = none
add_path (c ∷ rest) s = some (
  true,
  record s {
    purge_queue = s.purge_queue ++ (with_slash c rest, 0) ∷ [];
    accepted = suc s.accepted;
  },
)

unfoldable pub add : Str → Purger → Option (Bool × Purger)
add path s = if ltb (length s.purge_queue) s.queue_max then add_path path s else some (false, s)

unfoldable pub size : Purger → ℕ
size s = length s.purge_queue

-- A worker that holds no task.
unfoldable pub has_idle : Purger → Bool
has_idle s = ltb (length s.in_flight) s.running_worker

-- A worker takes the front of the queue and counts one more try; it waits while there is none.
unfoldable pub take_from : List Task → Purger → Option Purger
take_from [] s = none
take_from (task ∷ rest) s =
    if has_idle s && not s.stop_signal
    then some (record s { purge_queue = rest; in_flight = (task.0, suc task.1) ∷ s.in_flight })
    else none

unfoldable pub take_task : Purger → Option Purger
take_task s = take_from s.purge_queue s

unfoldable pub fail : Task → Purger → Purger
fail task s = record s { failed = s.failed ++ task ∷ [] }

-- A failed request goes back to the queue, or is given up.
unfoldable pub retry : Task → Purger → Purger
retry task s =
    if ltb task.1 s.try_max
    then if ltb (length s.purge_queue) s.queue_max
      then record s { purge_queue = s.purge_queue ++ task ∷ [] }
      else fail task s
    else fail task s

unfoldable pub is_purged : ℕ → Str → Bool
is_purged http_code buffer = (http_code == 200) && str_eq (take 4 buffer) valid_response

-- The rest of the round, after the request.
unfoldable pub finish : Task → ℕ → Str → Purger → Purger
finish task http_code buffer s =
    if is_purged http_code buffer then record s { succeeded = suc s.succeeded } else retry task s

-- A worker that holds no task quits after the stop.
unfoldable pub quit : Purger → Option Purger
quit s =
    if has_idle s && s.stop_signal
    then some (record s { running_worker = s.running_worker - 1 })
    else none

unfoldable pub stop : Purger → Purger
stop s = record s { stop_signal = true }

-- One step of a run.
pub data Step : Purger → Purger → Type 0 where
  adds : (s t : Purger) (path : Str) (b : Bool) → add path s ≡ some (b, t) → Step s t
  takes : (s t : Purger) → take_task s ≡ some t → Step s t
  finishes :
      (s : Purger) (before later : List Task) (task : Task) (http_code : ℕ) (buffer : Str)
      → s.in_flight ≡ before ++ task ∷ later
      → Step s (finish task http_code buffer (record s { in_flight = before ++ later }))
  quits : (s t : Purger) → quit s ≡ some t → Step s t
  stops : (s : Purger) → Step s (stop s)

pub data Run : Purger → Purger → Type 0 where
  start : (s : Purger) → Run s s
  next : (s t u : Purger) → Run s t → Step t u → Run s u
