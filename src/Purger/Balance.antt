-- ===== src/Purger/Balance.antt =====
-- The states that a purger can reach, whatever the workers' order and the answers.
use x_cache_manager.Prelude.{
  ℕ, suc, ◌+◌, ◌-◌, ◌≡◌, ◌≤◌, ◌<◌, refl, sym, ap, ◌∙◌, subst, arith, Bool, false, List, [], ◌∷◌,
  ◌++◌, Option, none, some, Str, ltb, if◌then◌else◌, length, length-append, Bool-cases, not, ◌&&◌,
  inl, inr,
}
use x_cache_manager.Purger.{
  Purger, Task, add, add_path, has_idle, take_task, take_from, fail, retry, is_purged, finish, quit,
  stop, Step, adds, takes, finishes, quits, stops,
}

abbrev pub AllTries : ℕ → List Task → Type 0
AllTries n [] = Unit {0}
AllTries n (t ∷ l) = (t.1 ≤ n) × AllTries n l

-- Every task that was accepted is in the queue, with a worker, given up or done; the queue is
-- within its limit; a worker has at most one task; no task is tried more often than allowed.
pub record IsValid (s : Purger) : Type 0 where
  pub bounded : length s.purge_queue ≤ s.queue_max
  pub waiting : AllTries (s.try_max - 1) s.purge_queue
  pub flying : AllTries (suc (s.try_max - 1)) s.in_flight
  pub given_up : AllTries (suc (s.try_max - 1)) s.failed
  pub busy : length s.in_flight ≤ s.running_worker
  pub balance :
      s.accepted ≡ length s.purge_queue + length s.in_flight + length s.failed + s.succeeded

AllTries-append : (n : ℕ) (l m : List Task) → AllTries n l → AllTries n m → AllTries n (l ++ m)
AllTries-append n [] m h k = k
AllTries-append n (t ∷ l) m h k = (h.0, AllTries-append n l m h.1 k)

AllTries-split : (n : ℕ) (l m : List Task) → AllTries n (l ++ m) → AllTries n l × AllTries n m
AllTries-split n [] m h = (tt, h)
AllTries-split n (t ∷ l) m h = let (a, b) = AllTries-split n l m h.1 in ((h.0, a), b)

-- The state that a step gives, if it gives one.
abbrev Holds : Option Purger → Type 0
Holds none = Unit {0}
Holds (some t) = IsValid t

abbrev state : Option (Bool × Purger) → Option Purger
state none = none
state (some p) = some p.1

queued-IsValid :
    (task : Task) (s : Purger)
    → IsValid s
    → length s.purge_queue < s.queue_max
    → task.1 ≤ s.try_max - 1
    → IsValid (record s { purge_queue = s.purge_queue ++ task ∷ []; accepted = suc s.accepted })
queued-IsValid task s v room tries =
    let longer = length-append s.purge_queue (task ∷ []) in
    record {
      bounded = omega (arith, longer, room);
      waiting = AllTries-append (s.try_max - 1) s.purge_queue (task ∷ []) v.waiting (tries, tt);
      flying = v.flying;
      given_up = v.given_up;
      busy = v.busy;
      balance = omega (arith, longer, v.balance);
    }

failed-IsValid :
    (task : Task) (s : Purger)
    → IsValid s
    → task.1 ≤ suc (s.try_max - 1)
    → IsValid (record s { failed = s.failed ++ task ∷ []; accepted = suc s.accepted })
failed-IsValid task s v tries =
    let longer = length-append s.failed (task ∷ []) in
    record {
      bounded = v.bounded;
      waiting = v.waiting;
      flying = v.flying;
      given_up = AllTries-append (suc (s.try_max - 1)) s.failed (task ∷ []) v.given_up (tries, tt);
      busy = v.busy;
      balance = omega (arith, longer, v.balance);
    }

-- A state from which a worker has taken its task away, counted as if it had not been accepted.
record IsOpen (s : Purger) : Type 0 where
  less : ℕ
  counted : s.accepted ≡ suc less
  valid : IsValid (record s { accepted = less })

finish-IsValid :
    (task : Task) (http_code : ℕ) (buffer : Str) (s : Purger)
    → IsOpen s
    → task.1 ≤ suc (s.try_max - 1)
    → IsValid (finish task http_code buffer s)
unfolding finish retry fail
finish-IsValid task http_code buffer s o tries =
    let base : Purger = record s { accepted = o.less } in
    elim (Bool-cases (is_purged http_code buffer)) [
      | inl good ↦
          rw (good, finish)
            (record {
              bounded = o.valid.bounded;
              waiting = o.valid.waiting;
              flying = o.valid.flying;
              given_up = o.valid.given_up;
              busy = o.valid.busy;
              balance = omega (arith, o.counted, o.valid.balance);
            })
      | inr bad ↦ elim (Bool-cases (ltb task.1 s.try_max)) [
        | inl again ↦ elim (Bool-cases (ltb (length s.purge_queue) s.queue_max)) [
          | inl room ↦
              rw (bad, again, room, finish, retry)
                (recount (record s { purge_queue = s.purge_queue ++ task ∷ [] }) o.less o.counted
                  (queued-IsValid task base o.valid (ground (arith, room)) (ground (arith, again))))
          | inr full ↦
              rw (bad, again, full, finish, retry)
                (recount (record s { failed = s.failed ++ task ∷ [] }) o.less o.counted
                  (failed-IsValid task base o.valid tries))
        ]
        | inr last ↦
            rw (bad, last, finish, retry)
              (recount (record s { failed = s.failed ++ task ∷ [] }) o.less o.counted
                (failed-IsValid task base o.valid tries))
      ]
    ]
  where
    recount :
        (t : Purger) (n : ℕ)
        → t.accepted ≡ suc n
        → IsValid (record t { accepted = suc n })
        → IsValid t
    recount t n e v = record {
      bounded = v.bounded;
      waiting = v.waiting;
      flying = v.flying;
      given_up = v.given_up;
      busy = v.busy;
      balance = e ∙ v.balance;
    }

taken-IsOpen :
    (s : Purger) (before later : List Task) (task : Task)
    → IsValid s
    → s.in_flight ≡ before ++ task ∷ later
    → IsOpen (record s { in_flight = before ++ later }) × (task.1 ≤ suc (s.try_max - 1))
taken-IsOpen s before later task v e =
    let (front, back) =
      AllTries-split (suc (s.try_max - 1)) before (task ∷ later)
        (subst (AllTries (suc (s.try_max - 1))) e v.flying) in
    let all = ap length e ∙ length-append before (task ∷ later) in
    let rest = length-append before later in
    (
      record {
        less = length s.purge_queue + length (before ++ later) + length s.failed + s.succeeded;
        counted = omega (arith, v.balance, all, rest);
        valid = record {
          bounded = v.bounded;
          waiting = v.waiting;
          flying = AllTries-append (suc (s.try_max - 1)) before later front back.1;
          given_up = v.given_up;
          busy = omega (arith, v.busy, all, rest);
          balance = refl;
        };
      },
      back.0,
    )

add-Holds : (path : Str) (s : Purger) → IsValid s → Holds (state (add path s))
unfolding add add_path
add-Holds path s v = elim (Bool-cases (ltb (length s.purge_queue) s.queue_max)) [
  | inl room ↦
      subst (λ (b : Bool). Holds (state (if b then add_path path s else some (false, s))))
        (sym room) (go path (ground (arith, room)))
  | inr full ↦
      subst (λ (b : Bool). Holds (state (if b then add_path path s else some (false, s))))
        (sym full) v
]
  where
    go : (path : Str) → length s.purge_queue < s.queue_max → Holds (state (add_path path s))
    go [] room = tt
    go (c ∷ rest) room = queued-IsValid (_, 0) s v room (omega arith)

take_from-Holds :
    (l : List Task) (s : Purger) → s.purge_queue ≡ l → IsValid s → Holds (take_from l s)
unfolding take_from has_idle
take_from-Holds [] s e v = tt
take_from-Holds (task ∷ rest) s e v =
    elim (Bool-cases (ltb (length s.in_flight) s.running_worker && not s.stop_signal)) [
      | inl go ↦
          let size = ap length e in
          let tries = subst (AllTries (s.try_max - 1)) e v.waiting in
          rw (go, take_from)
            (record {
              bounded = omega (arith, size, v.bounded);
              waiting = tries.1;
              flying = (omega (arith, tries.0), v.flying);
              given_up = v.given_up;
              busy = ground (arith, go);
              balance = omega (arith, size, v.balance);
            })
      | inr wait ↦ rw (wait, take_from) tt
    ]

quit-Holds : (s : Purger) → IsValid s → Holds (quit s)
unfolding quit has_idle
quit-Holds s v = elim (Bool-cases (ltb (length s.in_flight) s.running_worker && s.stop_signal)) [
  | inl go ↦
      rw (go, quit)
        (record {
          bounded = v.bounded;
          waiting = v.waiting;
          flying = v.flying;
          given_up = v.given_up;
          busy = ground (arith, go);
          balance = v.balance;
        })
  | inr stay ↦ rw (stay, quit) tt
]

pub step-IsValid : (s t : Purger) → Step s t → IsValid s → IsValid t
unfolding take_task stop
step-IsValid _ _ (adds s t path b e) v = subst (λ o. Holds (state o)) e (add-Holds path s v)
step-IsValid _ _ (takes s t e) v = subst Holds e (take_from-Holds s.purge_queue s refl v)
step-IsValid _ _ (finishes s before later task http_code buffer e) v =
    let (o, tries) = taken-IsOpen s before later task v e in
    finish-IsValid task http_code buffer (record s { in_flight = before ++ later }) o tries
step-IsValid _ _ (quits s t e) v = subst Holds e (quit-Holds s v)
step-IsValid _ _ (stops s) v = record {
  bounded = v.bounded;
  waiting = v.waiting;
  flying = v.flying;
  given_up = v.given_up;
  busy = v.busy;
  balance = v.balance;
}
