-- ===== src/Sqlite/Opening/Statements.antt =====
-- How the statements of src/db_adapter end that open a database.
use x_cache_manager.Prelude.{
  ℕ, suc, ◌≤◌, ◌≡◌, refl, sym, subst, Bool, true, false, Option, none, some, inl, inr, arith, Str,
  str_eq_refl, is_some, Outcome, returns, throws, ◌>>=◌, ◌>>◌, Bool-cases, bind-returns,
  bind-throws,
}
use x_cache_manager.Sqlite.Opening.{
  Schema, Error, open_failed, simple_failed, Disk, M, ticked, written, schema_or_empty, open_db,
  execute, check,
}

module _ (fails : ℕ → Bool) (path : Str) where
  -- The engine reported an error at one of the calls up to the last.
  pub record Reported {A : Type 0} (s : Disk) (o : Outcome Error Disk A) : Type 0 where
    pub at : ℕ
    pub error : Error
    pub state : Disk
    pub failed : fails at ≡ true
    pub since : s.clock ≤ at
    pub last : state.clock ≡ suc at
    pub thrown : o ≡ throws error state

  pub execute-writes :
      (f : Schema → Option Schema) (s : Disk) (q : Schema)
      → fails s.clock ≡ false
      → f (schema_or_empty (s.files path)) ≡ some q
      → execute fails path f s ≡ returns tt (written path q (ticked s))
  unfolding execute
  execute-writes f s q e e' = rw (e, e') refl

  pub execute-refuses :
      (f : Schema → Option Schema) (s : Disk)
      → fails s.clock ≡ false
      → f (schema_or_empty (s.files path)) ≡ none
      → execute fails path f s ≡ throws simple_failed (ticked s)
  unfolding execute
  execute-refuses f s e e' = rw (e, e') refl

  pub execute-fails :
      (f : Schema → Option Schema) (s : Disk)
      → fails s.clock ≡ true
      → execute fails path f s ≡ throws simple_failed (ticked s)
  unfolding execute
  execute-fails f s e = rw (e, execute) refl

  check-passes : (s : Disk) → fails s.clock ≡ false → check fails s ≡ returns tt (ticked s)
  unfolding check
  check-passes s e = rw (e, check) refl

  check-fails : (s : Disk) → fails s.clock ≡ true → check fails s ≡ throws simple_failed (ticked s)
  unfolding check
  check-fails s e = rw (e, check) refl

  pub written-file : (q : Schema) (s : Disk) → (written path q s).files path ≡ some q
  written-file q s = rw (str_eq_refl path) refl

  pub open_db-returns :
      (s : Disk)
      → fails s.clock ≡ false
      → open_db fails path s ≡ returns (is_some (s.files path)) (ticked s)
  unfolding open_db
  open_db-returns s e = rw (e, open_db) refl

  pub open_db-throws :
      (s : Disk) → fails s.clock ≡ true → open_db fails path s ≡ throws open_failed (ticked s)
  unfolding open_db
  open_db-throws s e = rw (e, open_db) refl

  pub Reported-later :
      {A : Type 0} (s t : Disk) (o : Outcome Error Disk A)
      → s.clock ≤ t.clock
      → Reported t o
      → Reported s o
  Reported-later s t o le r = record {
    at = r.at;
    error = r.error;
    state = r.state;
    failed = r.failed;
    since = omega (arith, r.since);
    last = r.last;
    thrown = r.thrown;
  }

  pub Reported-bind :
      {A B : Type 0} (m : M A) (f : A → M B) (s : Disk)
      → Reported s (m s)
      → Reported s ((m >>= f) s)
  Reported-bind m f s r = record {
    at = r.at;
    error = r.error;
    state = r.state;
    failed = r.failed;
    since = r.since;
    last = r.last;
    thrown = bind-throws m f s r.state r.error r.thrown;
  }

  pub Reported-now :
      {A : Type 0} (x : Error) (s : Disk) (o : Outcome Error Disk A)
      → fails s.clock ≡ true
      → o ≡ throws x (ticked s)
      → Reported s o
  Reported-now x s o e e' = record {
    at = s.clock;
    error = x;
    state = ticked s;
    failed = e;
    since = omega arith;
    last = refl;
    thrown = e';
  }

  -- Some statements come to their end with the file as `q` says, or the engine reported an error.
  pub data Stage (q : Option Schema) (s : Disk) (o : Outcome Error Disk (Unit {0})) : Type 0 where
    passes : (t : Disk) → o ≡ returns tt t → t.files path ≡ q → s.clock ≤ t.clock → Stage q s o
    fails_at : Reported s o → Stage q s o

  pub Stage-then :
      (q r : Option Schema) (m k : M (Unit {0})) (s : Disk)
      → Stage q s (m s)
      → ((t : Disk) → t.files path ≡ q → Stage r t (k t))
      → Stage r s ((m >> k) s)
  Stage-then q r m k s (fails_at x) next = fails_at (Reported-bind m (λ _. k) s x)
  Stage-then q r m k s (passes t e f le) next =
      let same = bind-returns m (λ _. k) s t tt e in
      subst (Stage r s) (sym same) (later (k t) (next t f))
    where
      later : (o : Outcome Error Disk (Unit {0})) → Stage r t o → Stage r s o
      later o (passes u e' f' le') = passes u e' f' (omega arith)
      later o (fails_at x) = fails_at (Reported-later s t o le x)

  pub execute-Stage :
      (f : Schema → Option Schema) (s : Disk) (q : Schema)
      → f (schema_or_empty (s.files path)) ≡ some q
      → Stage (some q) s (execute fails path f s)
  execute-Stage f s q e = elim (Bool-cases (fails s.clock)) [
    | inl x ↦ fails_at (Reported-now simple_failed s _ x (execute-fails f s x))
    | inr x ↦
        passes (written path q (ticked s)) (execute-writes f s q x e) (written-file q (ticked s))
          (omega arith)
  ]

  pub check-Stage : (q : Option Schema) (s : Disk) → s.files path ≡ q → Stage q s (check fails s)
  check-Stage q s e = elim (Bool-cases (fails s.clock)) [
    | inl x ↦ fails_at (Reported-now simple_failed s _ x (check-fails s x))
    | inr x ↦ passes (ticked s) (check-passes s x) e (omega arith)
  ]
