-- ===== src/Logger/Invariant.antt =====
-- The invariant of the logger: a level above 0, or the switch of the error stream, comes with its
-- logger, and `should_log` says what the levels say.
use x_cache_manager.Prelude.{
  ℕ, ◌≡◌, refl, Bool, true, false, leb, arith, Bool-cases, inl, inr, Outcome, returns, throws,
  undefined, ◌>>◌,
}
use x_cache_manager.Prelude.Integer.{ℤ, pos, negsuc}
use x_cache_manager.Logger
use x_cache_manager.Logger.{
  Logger, Error, Sink, construct, allow_default, new_level, max, set_level, set_stderr, make, setup,
  setup_stdout, setup_stderr, setup_files, debug,
}

pub record IsValid (s : Logger) : Type 0 where
  pub console : leb 1 s.logger_level_console ≡ true → s.logger_stdout ≡ true
  pub err : s.stderr_enabled ≡ true → s.logger_stderr ≡ true
  pub file : leb 1 s.logger_level_files ≡ true → s.logger_files ≡ true
  pub console_top : leb s.logger_level_console debug ≡ true
  pub file_top : leb s.logger_level_files debug ≡ true
  pub allowed :
      (i : ℕ)
      → leb 1 i ≡ true
      → leb i debug ≡ true
      → s.should_log i ≡ leb i (max s.logger_level_console s.logger_level_files)

pub construct-IsValid : IsValid construct
unfolding construct
construct-IsValid = record {
  console = λ h. ground arith;
  err = λ h. ground arith;
  file = λ h. ground arith;
  console_top = refl;
  file_top = refl;
  allowed = λ i h k. ground arith;
}

-- Set_level with any flags and any level, also one out of range, leaves a valid logger valid.
set_level-IsValid :
    (type : ℕ) (level : ℤ) (s : Logger) → IsValid s → IsValid (set_level type level s)
unfolding set_level new_level
set_level-IsValid type (pos n) s v = record {
  console = λ h. ground (arith, v.console);
  err = v.err;
  file = λ h. ground (arith, v.file);
  console_top = ground (arith, v.console_top);
  file_top = ground (arith, v.file_top);
  allowed = λ i h k. refl;
}
set_level-IsValid type (negsuc n) s v = record {
  console = v.console;
  err = v.err;
  file = v.file;
  console_top = v.console_top;
  file_top = v.file_top;
  allowed = λ i h k. refl;
}

abbrev pub Ended : Outcome Error Logger (Unit {0}) → Type 0
Ended (returns a s) = IsValid s
Ended (throws e s) = IsValid s
Ended undefined = ⊥

Ended-bind :
    (o : Outcome Error Logger (Unit {0})) (f : Logger → Outcome Error Logger (Unit {0}))
    (s : Logger)
    → Ended o
    → ((t : Logger) → IsValid t → Ended (f t))
    → Ended (((λ (_ : Logger). o) >> f) s)
Ended-bind (returns a t) f s h k = k t h
Ended-bind (throws e t) f s h k = h
Ended-bind undefined f s h k = absurd h

module _ (creates registers : Sink → Bool) where
  make-Ended :
      (sink : Sink) (present : Bool) (attach start : Logger → Logger) (s : Logger)
      → IsValid s
      → (present ≡ false → IsValid (attach s))
      → (present ≡ false → IsValid (start (attach s)))
      → Ended (make creates registers sink present attach start s)
  unfolding make
  make-Ended sink true attach start s v h k = v
  make-Ended sink false attach start s v h k = elim (Bool-cases (creates sink)) [
    | inl a ↦ elim (Bool-cases (registers sink)) [
      | inl b ↦ rw (a, b, make) (k refl)
      | inr b ↦ rw (a, b, make) (h refl)
    ]
    | inr a ↦ rw (a, make) v
  ]

  setup_stdout-Ended : (s : Logger) → IsValid s → Ended (setup_stdout creates registers s)
  unfolding setup_stdout allow_default
  setup_stdout-Ended s v =
      make-Ended Sink.stdout s.logger_stdout _ _ s v
        (λ e. record {
          console = λ h. refl;
          err = v.err;
          file = v.file;
          console_top = v.console_top;
          file_top = v.file_top;
          allowed = v.allowed;
        })
        (λ e. record {
          console = λ h. refl;
          err = v.err;
          file = v.file;
          console_top = refl;
          file_top = v.file_top;
          allowed = λ i h k. ground (arith, e, v.console, v.allowed i h k);
        })

  setup_stderr-Ended : (s : Logger) → IsValid s → Ended (setup_stderr creates registers s)
  unfolding setup_stderr
  setup_stderr-Ended s v =
      make-Ended Sink.stderr s.logger_stderr _ _ s v
        (λ e. record {
          console = v.console;
          err = λ h. refl;
          file = v.file;
          console_top = v.console_top;
          file_top = v.file_top;
          allowed = v.allowed;
        })
        (λ e. record {
          console = v.console;
          err = λ h. refl;
          file = v.file;
          console_top = v.console_top;
          file_top = v.file_top;
          allowed = v.allowed;
        })

  setup_files-Ended : (s : Logger) → IsValid s → Ended (setup_files creates registers s)
  unfolding setup_files allow_default
  setup_files-Ended s v =
      make-Ended Sink.files s.logger_files _ _ s v
        (λ e. record {
          console = v.console;
          err = v.err;
          file = λ h. refl;
          console_top = v.console_top;
          file_top = v.file_top;
          allowed = v.allowed;
        })
        (λ e. record {
          console = v.console;
          err = v.err;
          file = λ h. refl;
          console_top = v.console_top;
          file_top = refl;
          allowed = λ i h k. ground (arith, e, v.file, v.allowed i h k);
        })

  when-Ended :
      (b : Bool) (m : Logger → Outcome Error Logger (Unit {0})) (s : Logger)
      → IsValid s
      → ((t : Logger) → IsValid t → Ended (m t))
      → Ended (Logger.when creates registers b m s)
  when-Ended true m s v h = h s v
  when-Ended false m s v h = v

  -- Whatever spdlog answers, setup with any flags on a valid logger returns or throws and leaves a
  -- valid logger: no level and no error stream without its logger, and should_log in step with the
  -- levels.
  pub setup-IsValid : (flags : ℕ) (s : Logger) → IsValid s → Ended (setup creates registers flags s)
  unfolding setup
  setup-IsValid flags s v =
      Ended-bind
        (Logger.when creates registers (Logger.has_flag 1 flags) (setup_stdout creates registers) s)
        _ s (when-Ended (Logger.has_flag 1 flags) _ s v setup_stdout-Ended)
        (λ t w.
          Ended-bind
            (Logger.when creates registers (Logger.has_flag 2 flags)
              (setup_stderr creates registers) t)
            _ t (when-Ended (Logger.has_flag 2 flags) _ t w setup_stderr-Ended)
            (λ u x. when-Ended (Logger.has_flag 4 flags) _ u x setup_files-Ended))
