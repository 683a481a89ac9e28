-- ===== src/Receiver.antt =====
-- The socket for log lines: src/io/receiver.h and receiver.cpp. The system calls and asio are
-- parameters. Names of users and groups and the path are `std::string`s; the bits of a mode stand as
-- a number. The event loop runs the handlers one after the other in a thread of its own, so a run
-- is a sequence of steps of that thread and of the callers.
pub mod Permissions
pub mod Listening
use x_cache_manager.Prelude.{
  ℕ, zero, suc, ◌+◌, ◌-◌, ◌*◌, ◌/◌, ◌%◌, ◌≡◌, Bool, true, false, ◌&&◌, ◌||◌, not, List, [], ◌∷◌,
  ◌++◌, Option, none, some, Str, ltb, ◌==◌, if◌then◌else◌, is_empty, Outcome, Exec, returns, throws,
  undefined, ◌>>=◌, ◌>>◌, pure, raise,
}
use x_cache_manager.Prelude.Integer.{ℤ, pos, negsuc}

pub data Error : Type 0 where
  invalid_args stat_failed no_such_user no_such_group chown_failed chmod_failed : Error
  unlink_failed bind_failed already_started already_stopped cancel_failed io_started : Error

-- The arguments of the constructor.
pub record Settings : Type 0 where
  pub socket_path : Str
  pub socket_owner : Str
  pub socket_group : Str
  pub socket_perms : ℕ

-- Permissions below 0 or above 511 are refused.
unfoldable pub construct : Str → Str → Str → ℤ → Option Settings
construct socket owner group (negsuc n) = none
construct socket owner group (pos perms) =
    if is_empty socket || is_empty owner || is_empty group || ltb 511 perms
    then none
    else some (record {
      socket_path = socket;
      socket_owner = owner;
      socket_group = group;
      socket_perms = perms;
    })

-- The file of the socket, as `stat` shows it.
pub record File : Type 0 where
  pub st_uid : ℕ
  pub st_gid : ℕ
  pub st_mode : ℕ

-- What the system answers: the entries of users and groups, and whether calls succeed.
pub record System : Type 0 where
  pub stat_works : Bool
  pub getpwnam : Str → Option ℕ
  pub getgrnam : Str → Option ℕ
  pub chown_works : Bool
  pub chmod_works : Bool
  pub unlink_works : Bool
  pub unlink_absent : Bool
  pub bind_works : Bool

abbrev pub OnFile : Type 0 → Type 0
OnFile A = Exec Error File A

-- `desired_mode |= file_stat.st_mode & 0xF000`; the permissions lie below these bits.
unfoldable pub with_type : ℕ → ℕ → ℕ
with_type perms mode = perms + mode / 4096 % 16 * 4096

module _ (system : System) where
  unfoldable pub set_owner : ℕ → ℕ → OnFile (Unit {0})
  set_owner uid gid f =
      if not (uid == f.st_uid) || not (gid == f.st_gid)
      then if system.chown_works
        then returns tt (record f { st_uid = uid; st_gid = gid })
        else throws chown_failed f
      else returns tt f

  -- `mode` is the one that `stat` showed before.
  unfoldable pub set_mode : ℕ → ℕ → OnFile (Unit {0})
  set_mode desired mode f =
      if not (desired == mode)
      then if system.chmod_works
        then returns tt (record f { st_mode = desired })
        else throws chmod_failed f
      else returns tt f

  unfoldable pub change : ℕ → Option ℕ → Option ℕ → OnFile (Unit {0})
  change perms none group f = throws no_such_user f
  change perms (some uid) none f = throws no_such_group f
  change perms (some uid) (some gid) f =
      (set_owner uid gid >> set_mode (with_type perms f.st_mode) f.st_mode) f

  unfoldable pub chown_chmod : Settings → OnFile (Unit {0})
  chown_chmod s f =
      if system.stat_works
      then change s.socket_perms (system.getpwnam s.socket_owner) (system.getgrnam s.socket_group) f
      else throws stat_failed f

  -- `init`: the old socket goes, and the new one is bound, a file as the system makes it.
  unfoldable pub init : Settings → OnFile (Unit {0})
  init s f =
      if not system.unlink_works && not system.unlink_absent
      then throws unlink_failed f
      else if system.bind_works
      then chown_chmod s f
      else throws bind_failed f

-- `armed` counts the receives that asio waits for, `cancelled` those that it is going to hand an
-- abort; `handling` says that the handler of a receive runs. `lines` are the calls of the callback.
pub record Receiver : Type 0 where
  pub is_running : Bool
  pub thread_running : Bool
  pub armed : ℕ
  pub cancelled : ℕ
  pub handling : Bool
  pub lines : List Str

-- After the constructor and `init`, which makes the socket.
unfoldable pub created : Receiver
created = record {
  is_running = false;
  thread_running = false;
  armed = 0;
  cancelled = 0;
  handling = false;
  lines = [];
}

abbrev pub M : Type 0 → Type 0
M A = Exec Error Receiver A

unfoldable pub now_running : Receiver → Bool
now_running s = s.is_running && s.thread_running

-- `receive`.
unfoldable pub receive : Receiver → Receiver
receive s = record s { armed = suc s.armed }

unfoldable pub receive_start : M (Unit {0})
receive_start s =
    if s.is_running
    then throws already_started s
    else returns tt (record (receive s) { is_running = true })

-- `cancels` says whether `socket->cancel` succeeds.
unfoldable pub receive_stop : Bool → M (Unit {0})
receive_stop cancels s =
    if not s.is_running
    then throws already_stopped s
    else if cancels
    then returns tt (record s { is_running = false; cancelled = s.cancelled + s.armed; armed = 0 })
    else throws cancel_failed s

unfoldable pub io_run : M (Unit {0})
io_run s =
    if s.thread_running
    then throws io_started s
    else returns tt (record s { thread_running = true })

-- The handler begins: an abort returns at once, a line goes to the callback, an error is printed.
unfoldable pub abort_from : ℕ → Receiver → Option Receiver
abort_from zero s = none
abort_from (suc n) s = some (record s { cancelled = n })

unfoldable pub handle_from : ℕ → Option Str → Receiver → Option Receiver
handle_from zero line s = none
handle_from (suc n) (some line) s =
    some (record s { armed = n; handling = true; lines = s.lines ++ line ∷ [] })
handle_from (suc n) none s = some (record s { armed = n; handling = true })

unfoldable pub is_free : Receiver → Bool
is_free s = s.thread_running && not s.handling

unfoldable pub abort : Receiver → Option Receiver
abort s = if is_free s then abort_from s.cancelled s else none

unfoldable pub handle : Option Str → Receiver → Option Receiver
handle line s = if is_free s then handle_from s.armed line s else none

-- The handler ends with the next `receive()`.
unfoldable pub handled : Receiver → Option Receiver
handled s = if s.handling then some (receive (record s { handling = false })) else none

pub data Call : Type 0 where
  starts runs : Call
  stops : Bool → Call

unfoldable pub call : Call → M (Unit {0})
call starts = receive_start
call runs = io_run
call (stops cancels) = receive_stop cancels

abbrev pub after : {A : Type 0} → Outcome Error Receiver A → Option Receiver
after (returns a t) = some t
after (throws e t) = some t
after undefined = none

pub data Step (s t : Receiver) : Type 0 where
  calls : (c : Call) → after (call c s) ≡ some t → Step s t
  aborts : abort s ≡ some t → Step s t
  handles : (line : Option Str) → handle line s ≡ some t → Step s t
  ends : handled s ≡ some t → Step s t

pub data Run (s : Receiver) : Receiver → Type 0 where
  start : Run s s
  next : {t u : Receiver} → Run s t → Step t u → Run s u
