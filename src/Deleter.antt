-- ===== src/Deleter.antt =====
-- The deletion of files: src/io/async_deleter.h and async_deleter.cpp. The threads run the handlers
-- that asio keeps in a queue, so a run is a sequence of steps: a caller submits a file, a thread
-- takes a handler, removes the file, counts the job off, and notifies; another thread stops the
-- deleter and waits. What `remove_all` gives is the file system's, a parameter of a step. The lock
-- `cv_lock` is held by the one that waits, from its first look at `working_jobs` to its sleep.
pub mod Waiting
use x_cache_manager.Prelude.{
  ℕ, zero, suc, ◌+◌, ◌-◌, ◌^◌, ◌≤◌, ◌≡◌, ◌≢◌, Bool, true, false, ◌&&◌, not, List, [], ◌∷◌, ◌++◌,
  Option, none, some, Str, ltb, leb, ◌==◌, if◌then◌else◌, length, is_empty,
}

-- `std::filesystem::remove_all(file, ec)`: how many files it removed, an error, or an exception of
-- another kind.
pub data Removal : Type 0 where
  removed : ℕ → Removal
  failed : Removal
  thrown : Removal

-- Its result: for an error it is documented to be the largest `uintmax_t`.
unfoldable pub count : Removal → ℕ
count (removed n) = n
count failed = 2 ^ 64 - 1
count thrown = 0

-- Where the thread that stops the deleter is: before or after `stop`; in `cv.wait` with the lock,
-- about to look at the jobs or about to sleep; asleep; after the wait.
pub data Phase : Type 0 where
  outside looking deciding asleep passed : Phase

-- `handlers` is the queue of `io`; `in_flight` are the files whose handlers run, `notifying` the
-- threads that have counted a job off and are going to notify. `running` says that `io` was not
-- stopped; `submitted` and `reported` record the calls of `submit` and of `fail_callback`.
pub record Deleter : Type 0 where
  pub threads : ℕ
  pub running : Bool
  pub handlers : List Str
  pub in_flight : List Str
  pub notifying : ℕ
  pub working_jobs : ℕ
  pub phase : Phase
  pub submitted : ℕ
  pub finished : ℕ
  pub reported : List Str

-- The constructor.
unfoldable pub construct : ℕ → Deleter
construct threads = record {
  threads = threads;
  running = false;
  handlers = [];
  in_flight = [];
  notifying = 0;
  working_jobs = 0;
  phase = outside;
  submitted = 0;
  finished = 0;
  reported = [];
}

-- `run` starts all of the threads; it throws where threads run.
unfoldable pub run : Deleter → Option Deleter
run s = if s.running then none else some (record s { running = true })

-- `working_jobs.fetch_add(1)` and `asio::post`.
unfoldable pub submit : Str → Deleter → Deleter
submit file s = record s {
  working_jobs = suc s.working_jobs;
  handlers = s.handlers ++ file ∷ [];
  submitted = suc s.submitted;
}

-- A thread that runs no handler takes the first.
unfoldable pub has_idle : Deleter → Bool
has_idle s = ltb (length s.in_flight + s.notifying) s.threads

unfoldable pub take_from : List Str → Deleter → Option Deleter
take_from [] s = none
take_from (file ∷ rest) s =
    if s.running && has_idle s
    then some (record s { handlers = rest; in_flight = file ∷ s.in_flight })
    else none

unfoldable pub take_handler : Deleter → Option Deleter
take_handler s = take_from s.handlers s

-- `if(!fs::remove_all(file, ec))fail_callback(file, ec)`, in a handler that catches exceptions.
unfoldable pub remove_file : Str → Removal → Deleter → Deleter
remove_file file thrown s = s
remove_file file r s = if count r == 0 then record s { reported = s.reported ++ file ∷ [] } else s

-- `working_jobs.fetch_sub(1) <= 2`: whether the thread is going to notify.
unfoldable pub count_off : Deleter → Deleter
count_off s = record s {
  working_jobs = s.working_jobs - 1;
  finished = suc s.finished;
  notifying = if leb s.working_jobs 2 then suc s.notifying else s.notifying;
}

-- The handler of a file that a thread has taken, up to its notification.
unfoldable pub finish : Str → Removal → Deleter → Deleter
finish file r s = count_off (remove_file file r s)

-- `notify_all` wakes the one that sleeps; it needs the lock.
abbrev pub wake : Phase → Phase
wake asleep = looking
wake p = p

abbrev pub holds_lock : Phase → Bool
holds_lock looking = true
holds_lock deciding = true
holds_lock p = false

unfoldable pub notify : Deleter → Option Deleter
notify s =
    if not (holds_lock s.phase) && ltb 0 s.notifying
    then some (record s { notifying = s.notifying - 1; phase = wake s.phase })
    else none

-- `stop`: the lock, and a first look at the jobs.
unfoldable pub stop_from : Phase → Deleter → Option Deleter
stop_from outside s = some (record s { phase = if s.working_jobs == 0 then passed else looking })
stop_from p s = none

unfoldable pub stop : Deleter → Option Deleter
stop s = stop_from s.phase s

-- `cv.wait` with its predicate: look, sleep, and look again, also after a wake-up for no reason.
unfoldable pub wait_from : Phase → Deleter → Option Deleter
wait_from looking s = some (record s { phase = if s.working_jobs == 0 then passed else deciding })
wait_from deciding s = some (record s { phase = asleep })
wait_from asleep s = some (record s { phase = looking })
wait_from p s = none

unfoldable pub wait : Deleter → Option Deleter
wait s = wait_from s.phase s

-- After the wait: `io.stop()`, and the threads end.
unfoldable pub halt_from : Phase → Deleter → Option Deleter
halt_from passed s = some (record s { running = false; phase = outside })
halt_from p s = none

unfoldable pub halt : Deleter → Option Deleter
halt s = halt_from s.phase s

unfoldable pub force_stop : Deleter → Deleter
force_stop s = record s { running = false }

pub data Step : Deleter → Deleter → Type 0 where
  runs : (s t : Deleter) → run s ≡ some t → Step s t
  submits : (s : Deleter) (file : Str) → Step s (submit file s)
  takes : (s t : Deleter) → take_handler s ≡ some t → Step s t
  finishes :
      (s : Deleter) (before later : List Str) (file : Str) (r : Removal)
      → s.in_flight ≡ before ++ file ∷ later
      → Step s (finish file r (record s { in_flight = before ++ later }))
  notifies : (s t : Deleter) → notify s ≡ some t → Step s t
  stops : (s t : Deleter) → stop s ≡ some t → Step s t
  waits : (s t : Deleter) → wait s ≡ some t → Step s t
  halts : (s t : Deleter) → halt s ≡ some t → Step s t
  forces : (s : Deleter) → Step s (force_stop s)

pub data Run : Deleter → Deleter → Type 0 where
  start : (s : Deleter) → Run s s
  next : (s t u : Deleter) → Run s t → Step t u → Run s u
