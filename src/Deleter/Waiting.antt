-- ===== src/Deleter/Waiting.antt =====
-- What every run of the deleter of src/io/async_deleter.cpp keeps, and the wait of `stop`.
use x_cache_manager.Prelude.{
  ℕ, ◌+◌, ◌≤◌, ◌<◌, ◌≡◌, refl, ◌∙◌, ap, Bool, true, false, List, [], ◌∷◌, ◌++◌, some, Str, ◌==◌,
  length, arith, length-append, Bool-cases, inl, inr, subst,
}
use x_cache_manager.Deleter.{
  Removal, removed, failed, thrown, count, Phase, outside, looking, deciding, asleep, passed,
  Deleter, construct, run, submit, has_idle, take_from, take_handler, remove_file, count_off,
  finish, wake, notify, stop_from, stop, wait_from, wait, halt_from, halt, force_stop, Step, runs,
  submits, takes, finishes, notifies, stops, waits, halts, forces, Run, start, next,
}

-- The thread that stops the deleter sleeps, or is going to without another look.
abbrev pub is_sleeping : Phase → Bool
is_sleeping deciding = true
is_sleeping asleep = true
is_sleeping p = false

pub record IsValid (s : Deleter) : Type 0 where
  pub jobs : s.working_jobs ≡ length s.handlers + length s.in_flight
  pub accounts : s.submitted ≡ s.working_jobs + s.finished
  pub busy : length s.in_flight + s.notifying ≤ s.threads
  pub woken : is_sleeping s.phase ≡ true → s.working_jobs ≡ 0 → 0 < s.notifying

construct-IsValid : (n : ℕ) → IsValid (construct n)
unfolding construct
construct-IsValid n = ground arith

take_from-IsValid :
    (l : List Str) (s t : Deleter) → s.handlers ≡ l → take_from l s ≡ some t → IsValid s → IsValid t
unfolding take_from has_idle
take_from-IsValid [] s t e h v = ground arith
take_from-IsValid (f ∷ rest) s t e h v = ground (arith, ap length e)

stop_from-IsValid :
    (p : Phase) (s t : Deleter) → s.phase ≡ p → stop_from p s ≡ some t → IsValid s → IsValid t
unfolding stop_from
stop_from-IsValid outside s t e h v = ground arith
stop_from-IsValid _ s t e h v = ground arith

wait_from-IsValid :
    (p : Phase) (s t : Deleter) → s.phase ≡ p → wait_from p s ≡ some t → IsValid s → IsValid t
unfolding wait_from
wait_from-IsValid looking s t e h v = ground arith
wait_from-IsValid deciding s t e h v = ground arith
wait_from-IsValid asleep s t e h v = ground arith
wait_from-IsValid _ s t e h v = ground arith

halt_from-IsValid :
    (p : Phase) (s t : Deleter) → s.phase ≡ p → halt_from p s ≡ some t → IsValid s → IsValid t
unfolding halt_from
halt_from-IsValid passed s t e h v = ground arith
halt_from-IsValid _ s t e h v = ground arith

submit-IsValid : (file : Str) (s : Deleter) → IsValid s → IsValid (submit file s)
unfolding submit
submit-IsValid file s v = let n = length-append s.handlers (file ∷ []) in ground (arith, n)

-- A report changes nothing that counts.
remove_file-keeps :
    (file : Str) (r : Removal) (s : Deleter)
    → let t = remove_file file r s in
      (t.working_jobs ≡ s.working_jobs)
      × (t.handlers ≡ s.handlers)
      × (t.in_flight ≡ s.in_flight)
      × (t.submitted ≡ s.submitted)
      × (t.finished ≡ s.finished)
      × (t.notifying ≡ s.notifying)
      × (t.threads ≡ s.threads)
      × (t.phase ≡ s.phase)
unfolding remove_file
remove_file-keeps file (removed n) s = elim (Bool-cases (count (removed n) == 0)) [
  | inl e ↦ rw e (refl, refl, refl, refl, refl, refl, refl, refl)
  | inr e ↦ rw e (refl, refl, refl, refl, refl, refl, refl, refl)
]
remove_file-keeps file failed s = elim (Bool-cases (count failed == 0)) [
  | inl e ↦ rw e (refl, refl, refl, refl, refl, refl, refl, refl)
  | inr e ↦ rw e (refl, refl, refl, refl, refl, refl, refl, refl)
]
remove_file-keeps file thrown s = (refl, refl, refl, refl, refl, refl, refl, refl)

finish-IsValid :
    (file : Str) (r : Removal) (s : Deleter) (before later : List Str)
    → s.in_flight ≡ before ++ file ∷ later
    → IsValid s
    → IsValid (finish file r (record s { in_flight = before ++ later }))
unfolding finish count_off
finish-IsValid file r s before later e v =
    let n = ap length e ∙ length-append before (file ∷ later) in
    let m = length-append before later in
    let k = remove_file-keeps file r (record s { in_flight = before ++ later }) in
    ground (arith, n, m, k)

notify_at-IsValid :
    (p : Phase) (s t : Deleter) → s.phase ≡ p → notify s ≡ some t → IsValid s → IsValid t
unfolding notify
notify_at-IsValid asleep s t e h v = ground arith
notify_at-IsValid outside s t e h v = ground arith
notify_at-IsValid looking s t e h v = ground arith
notify_at-IsValid deciding s t e h v = ground arith
notify_at-IsValid passed s t e h v = ground arith

notify-IsValid : (s t : Deleter) → notify s ≡ some t → IsValid s → IsValid t
unfolding notify
notify-IsValid s t h v = notify_at-IsValid s.phase s t refl h v

Step-IsValid : (s t : Deleter) → Step s t → IsValid s → IsValid t
unfolding run take_handler stop wait halt force_stop
Step-IsValid s t (runs s' t' h) v = ground arith
Step-IsValid s t (submits s' file) v = submit-IsValid file s v
Step-IsValid s t (takes s' t' h) v = take_from-IsValid s.handlers s t refl h v
Step-IsValid s t (finishes s' before later file r e) v = finish-IsValid file r s before later e v
Step-IsValid s t (notifies s' t' h) v = notify-IsValid s t h v
Step-IsValid s t (stops s' t' h) v = stop_from-IsValid s.phase s t refl h v
Step-IsValid s t (waits s' t' h) v = wait_from-IsValid s.phase s t refl h v
Step-IsValid s t (halts s' t' h) v = halt_from-IsValid s.phase s t refl h v
Step-IsValid s t (forces s') v = ground arith

-- In the wait, or before it, so not after it.
abbrev pub is_passed : Phase → Bool
is_passed passed = true
is_passed p = false

stop_from-passes :
    (p : Phase) (s t : Deleter)
    → stop_from p s ≡ some t
    → is_passed t.phase ≡ true
    → t.working_jobs ≡ 0
unfolding stop_from
stop_from-passes outside s t h y = ground arith
stop_from-passes _ s t h y = ground arith

wait_from-passes :
    (p : Phase) (s t : Deleter)
    → wait_from p s ≡ some t
    → is_passed t.phase ≡ true
    → t.working_jobs ≡ 0
unfolding wait_from
wait_from-passes looking s t h y = ground arith
wait_from-passes deciding s t h y = ground arith
wait_from-passes asleep s t h y = ground arith
wait_from-passes _ s t h y = ground arith

take_from-phase : (l : List Str) (s t : Deleter) → take_from l s ≡ some t → t.phase ≡ s.phase
unfolding take_from
take_from-phase [] s t h = ground arith
take_from-phase (f ∷ l) s t h = ground arith

wake-passed : (p : Phase) → is_passed (wake p) ≡ is_passed p
wake-passed asleep = refl
wake-passed _ = refl

notify-phase : (s t : Deleter) → notify s ≡ some t → is_passed t.phase ≡ is_passed s.phase
unfolding notify
notify-phase s t h = ground (arith, wake-passed s.phase)

halt_from-phase : (p : Phase) (s t : Deleter) → halt_from p s ≡ some t → is_passed t.phase ≡ false
unfolding halt_from
halt_from-phase passed s t h = ground arith
halt_from-phase _ s t h = ground arith

-- What a step from a state before the end of the wait to one behind it finds.
abbrev pub Passing : Bool → Bool → Deleter → Type 0
Passing false true t =
    (t.finished ≡ t.submitted) × (length t.handlers ≡ 0) × (length t.in_flight ≡ 0)
Passing false false t = Unit
Passing true b t = Unit

-- The wait of `stop` ends only where no job is left.
Step-passes :
    (s t : Deleter)
    → Step s t
    → is_passed s.phase ≡ false
    → is_passed t.phase ≡ true
    → t.working_jobs ≡ 0
unfolding run take_handler stop wait halt force_stop submit finish count_off
Step-passes s t (runs s' t' h) x y = ground arith
Step-passes s t (submits s' file) x y = ground arith
Step-passes s t (takes s' t' h) x y = ground (arith, take_from-phase s.handlers s t h)
Step-passes s t (finishes s' before later file r e) x y =
    ground (arith, remove_file-keeps file r (record s { in_flight = before ++ later }))
Step-passes s t (notifies s' t' h) x y = ground (arith, notify-phase s t h)
Step-passes s t (stops s' t' h) x y = stop_from-passes s.phase s t h y
Step-passes s t (waits s' t' h) x y = wait_from-passes s.phase s t h y
Step-passes s t (halts s' t' h) x y = ground (arith, halt_from-phase s.phase s t h)
Step-passes s t (forces s') x y = ground arith

Run-IsValid : (n : ℕ) (s t : Deleter) → construct n ≡ s → Run s t → IsValid t
Run-IsValid n s t e (start s') = subst IsValid e (construct-IsValid n)
Run-IsValid n s t e (next s' u t' r st) = Step-IsValid u t st (Run-IsValid n s u e r)

-- In every run of the deleter, working_jobs counts the queued handlers and those in flight, every
-- submitted file is counted there or finished, and a thread asleep in stop with no job left has a
-- notification coming; and a step that ends the wait of stop finds every submitted file finished,
-- with no handler queued or in flight.
pub stop_waits :
    (n : ℕ) (s t : Deleter)
    → Run (construct n) s
    → Step s t
    → IsValid t × Passing (is_passed s.phase) (is_passed t.phase) t
stop_waits n s t r st =
    let v = Step-IsValid s t st (Run-IsValid n (construct n) s refl r) in
    (v, go (is_passed s.phase) (is_passed t.phase) refl refl v)
  where
    go : (a b : Bool) → is_passed s.phase ≡ a → is_passed t.phase ≡ b → IsValid t → Passing a b t
    go false true x y v = omega (arith, v.jobs, v.accounts, Step-passes s t st x y)
    go false false x y v = tt
    go true b x y v = tt
