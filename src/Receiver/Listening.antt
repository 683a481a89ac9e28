-- ===== src/Receiver/Listening.antt =====
-- Whether a receiver that runs waits for a line: src/io/receiver.cpp.
use x_cache_manager.Prelude.{
  ℕ, zero, suc, ◌+◌, ◌≤◌, ◌≡◌, refl, Bool, true, false, Option, none, some, Str, arith, if-eq-some,
}
use x_cache_manager.Receiver.{
  Receiver, created, receive, receive_start, receive_stop, io_run, abort_from, handle_from, is_free,
  abort, handle, handled, starts, runs, stops, call, after, Step, calls, aborts, handles, ends, Run,
  start, next,
}

abbrev pub one_if : Bool → ℕ
one_if true = 1
one_if false = 0

-- A receiver that runs waits for a line, or is about to.
pub record IsListening (s : Receiver) : Type 0 where
  pub listens : s.is_running ≡ true → 1 ≤ s.armed + one_if s.handling
  pub threaded : s.handling ≡ true → s.thread_running ≡ true

handle_from-IsListening :
    (n : ℕ) (line : Option Str) (s t : Receiver)
    → s.armed ≡ n
    → s.thread_running ≡ true
    → handle_from n line s ≡ some t
    → IsListening s
    → IsListening t
unfolding handle_from
handle_from-IsListening zero line s t e th h v = ground arith
handle_from-IsListening (suc n) none s t e th h v = ground arith
handle_from-IsListening (suc n) (some line) s t e th h v = ground arith

abort_from-IsListening :
    (n : ℕ) (s t : Receiver) → abort_from n s ≡ some t → IsListening s → IsListening t
unfolding abort_from
abort_from-IsListening zero s t h v = ground arith
abort_from-IsListening (suc n) s t h v = ground arith

Step-IsListening : (s t : Receiver) → Step s t → IsListening s → IsListening t
unfolding call receive_start receive receive_stop io_run abort handle handled is_free
Step-IsListening s t (calls starts h) v = ground arith
Step-IsListening s t (calls runs h) v = ground arith
Step-IsListening s t (calls (stops true) h) v = ground arith
Step-IsListening s t (calls (stops false) h) v = ground arith
Step-IsListening s t (aborts h) v =
    let (x, y) = if-eq-some (is_free s) (abort_from s.cancelled s) t h in
    abort_from-IsListening s.cancelled s t y v
Step-IsListening s t (handles line h) v =
    let (x, y) = if-eq-some (is_free s) (handle_from s.armed line s) t h in
    handle_from-IsListening s.armed line s t refl (ground arith) y v
Step-IsListening s t (ends h) v = ground arith

Run-IsListening : (s t : Receiver) → IsListening s → Run s t → IsListening t
Run-IsListening s t v start = v
Run-IsListening s t v (next {t = u} r st) = Step-IsListening u t st (Run-IsListening s u v r)

-- It does not run, and no receive waits.
pub record IsQuiet (s : Receiver) : Type 0 where
  pub stopped : s.is_running ≡ false
  pub none_armed : s.armed ≡ 0
  pub none_handled : s.handling ≡ false

-- Steps with no start among them.
pub data Idling (s : Receiver) : Receiver → Type 0 where
  here : Idling s s
  calls_run : {t u : Receiver} → Idling s t → after (call runs t) ≡ some u → Idling s u
  calls_stop :
      {t u : Receiver} (cancels : Bool)
      → Idling s t
      → after (call (stops cancels) t) ≡ some u
      → Idling s u
  aborted : {t u : Receiver} → Idling s t → abort t ≡ some u → Idling s u
  handled_line :
      {t u : Receiver} (line : Option Str) → Idling s t → handle line t ≡ some u → Idling s u
  ended : {t u : Receiver} → Idling s t → handled t ≡ some u → Idling s u

abbrev Silent : Receiver → Receiver → Type 0
Silent s t = IsQuiet t × (t.lines ≡ s.lines)

created-IsListening : IsListening created
unfolding created
created-IsListening = ground arith

-- In every state that the callers and the event loop reach from a new receiver, a receiver that is
-- running waits for a line or is in the handler of one, and a handler is there only with the
-- thread of the event loop.
pub run-IsListening : (s : Receiver) → Run created s → IsListening s
run-IsListening s r = Run-IsListening created s created-IsListening r
