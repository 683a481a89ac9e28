-- ===== src/Redis/Keeps.antt =====
-- The rules for calls that keep the context of a connection and are counted:
-- src/redis/redis_base.h and redis_base.cpp.
use x_cache_manager.Prelude.{
  ℕ, ◌+◌, ◌≤◌, ◌≡◌, refl, Bool, true, false, some, inl, inr, arith, if◌then◌else◌, is_some, Outcome,
  returns, throws, undefined, ◌>>=◌, pure, raise, Option-cases,
}
use x_cache_manager.Sqlite.Ends.{Ends, Ends-returns, Ends-throws}
use x_cache_manager.Redis.{
  Stage, Error, Entry, Redis, M, say, set_connected, when, with_error, proc_error, report,
}

-- The connection has a context, and makes `m` tries.
abbrev pub Holds : ℕ → Redis → Type 0
Holds m s = (is_some s.redis_ctx ≡ true) × (s.max_tries ≡ m)

-- So it is still, with at most `k` calls of hiredis more than `n`.
abbrev pub Within : ℕ → ℕ → ℕ → Redis → Type 0
Within m k n t = Holds m t × (t.calls ≤ n + k)

-- A call ends so, by a return or an exception.
abbrev pub Stays : {A : Type 0} → ℕ → ℕ → ℕ → Outcome Error Redis A → Type 0
Stays m k n o = Ends (λ e. Within m k n) (λ a. Within m k n) o

pub record Keeps {A : Type 0} (m k : ℕ) (f : M A) : Type 0 where
  pub at : (s : Redis) → Holds m s → Stays m k s.calls (f s)

pub Stays-mono :
    {A : Type 0} (m k n l p : ℕ) (o : Outcome Error Redis A)
    → Stays m k n o
    → n + k ≤ p + l
    → Stays m l p o
Stays-mono m k n l p (returns a t) h le = (h.0, omega arith)
Stays-mono m k n l p (throws e t) h le = (h.0, omega arith)
Stays-mono m k n l p undefined h le = h

pub Stays-bind :
    {A B : Type 0} (m j k n : ℕ) (o : Outcome Error Redis A) (g : A → M B) (s : Redis)
    → Stays m j n o
    → ((a : A) → Keeps m k (g a))
    → Stays m (j + k) n (((λ _. o) >>= g) s)
Stays-bind m j k n (returns a t) g s h q =
    Stays-mono m k t.calls (j + k) n (g a t) ((q a).at t h.0) (omega (arith, h.1))
Stays-bind m j k n (throws e t) g s h q = (h.0, omega (arith, h.1))
Stays-bind m j k n undefined g s h q = h

-- A first part whose outcome is known.
pub Stays-returns :
    {A B : Type 0} (m k n : ℕ) (f : M A) (g : A → M B) (s t : Redis) (a : A)
    → f s ≡ returns a t
    → Stays m k n (g a t)
    → Stays m k n ((f >>= g) s)
Stays-returns m k n = Ends-returns (λ e. Within m k n) (λ b. Within m k n)

pub Stays-throws :
    {A B : Type 0} (m k n : ℕ) (f : M A) (g : A → M B) (s t : Redis) (e : Error)
    → f s ≡ throws e t
    → Within m k n t
    → Stays m k n ((f >>= g) s)
Stays-throws m k n = Ends-throws (λ e. Within m k n) (λ b. Within m k n)

module _ {m : ℕ} where
  pub Keeps-mono : {A : Type 0} (j : ℕ) {k : ℕ} {f : M A} → Keeps m j f → j ≤ k → Keeps m k f
  Keeps-mono j {k} {f} p le = record {
    at = λ s h. Stays-mono m j s.calls k s.calls (f s) (p.at s h) (omega arith);
  }

  -- A first part that may call, and the rest.
  pub Keeps-bind :
      {A B : Type 0} (j k : ℕ) {f : M A} {g : A → M B}
      → Keeps m j f
      → ((a : A) → Keeps m k (g a))
      → Keeps m (j + k) (f >>= g)
  Keeps-bind j k {f} {g} p q = record {
    at = λ s h. Stays-bind m j k s.calls (f s) g s (p.at s h) q;
  }

  -- A first part that makes no call of hiredis.
  pub Keeps-then :
      {A B : Type 0} {k : ℕ} {f : M A} {g : A → M B}
      → Keeps m 0 f
      → ((a : A) → Keeps m k (g a))
      → Keeps m k (f >>= g)
  Keeps-then {k} p q = Keeps-mono (0 + k) (Keeps-bind 0 k p q) (omega arith)

  -- A last part that makes none.
  pub Keeps-last :
      {A B : Type 0} {k : ℕ} {f : M A} {g : A → M B}
      → Keeps m k f
      → ((a : A) → Keeps m 0 (g a))
      → Keeps m k (f >>= g)
  Keeps-last {k} p q = Keeps-mono (k + 0) (Keeps-bind k 0 p q) (omega arith)

  pub Keeps-pure : {A : Type 0} {k : ℕ} {a : A} → Keeps m k (pure a)
  Keeps-pure = record { at = λ s h. (h, omega arith) }

  pub Keeps-raise : {A : Type 0} {k : ℕ} {e : Error} → Keeps {A = A} m k (raise e)
  Keeps-raise = record { at = λ s h. (h, omega arith) }

  pub Keeps-when : {k : ℕ} (b : Bool) {f : M (Unit {0})} → Keeps m k f → Keeps m k (when b f)
  Keeps-when true p = p
  Keeps-when false p = Keeps-pure

  pub Keeps-if :
      {A : Type 0} {k : ℕ} (b : Bool) {f g : M A}
      → Keeps m k f
      → Keeps m k g
      → Keeps m k (if b then f else g)
  Keeps-if true p q = p
  Keeps-if false p q = q

  pub Keeps-with_error :
      {A : Type 0} {k : ℕ} {f : ℕ → M A}
      → ((err : ℕ) → Keeps m k (f err))
      → Keeps m k (with_error f)
  Keeps-with_error {k} {f} p = record {
    at = λ s h. elim (Option-cases s.redis_ctx) [
      | inl e ↦ absurd (ground arith)
      | inr (err, e) ↦ rw e ((p err).at (record s { redis_ctx = some err }) (refl, h.1))
    ];
  }

  pub Keeps-say : {k : ℕ} (e : Entry) → Keeps m k (say e)
  unfolding say
  Keeps-say e = record { at = λ s h. (h, omega arith) }

  pub Keeps-set_connected : {k : ℕ} (b : Bool) → Keeps m k (set_connected b)
  unfolding set_connected
  Keeps-set_connected b = record { at = λ s h. (h, omega arith) }

  pub ruleset basic_rules = (
    Keeps-pure, Keeps-raise, Keeps-when, Keeps-if, Keeps-with_error, Keeps-say, Keeps-set_connected,
    Keeps-then,
  )

  pub Keeps-proc_error : {k : ℕ} (flag : ℕ) (stage : Stage) → Keeps m k (proc_error flag stage)
  unfolding proc_error
  Keeps-proc_error flag stage = search basic_rules

  pub Keeps-report : {k : ℕ} (i : ℕ) (stage : Stage) → Keeps m k (report i stage)
  unfolding report
  Keeps-report i stage = record { at = λ s h. (Keeps-proc_error _ stage).at s h }

pub ruleset keeps_rules = (basic_rules, Keeps-proc_error, Keeps-report)
