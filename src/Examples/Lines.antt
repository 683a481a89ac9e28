-- ===== src/Examples/Lines.antt =====
-- The logger of src/utils/logger.cpp at concrete levels, and its theorems at one state.
use x_cache_manager.Prelude.{
  leb, ℕ, ◌≡◌, refl, arith, Bool, true, List, [], ◌∷◌, Str, returns, undefined, ◌>>◌,
}
use x_cache_manager.Logger
use x_cache_manager.Logger.{
  Logger, Sink, stdout, stderr, files, construct, setup, set_level, set_stderr, critical, error,
  warn, info, debug,
}
use x_cache_manager.Logger.Invariant.{IsValid, Ended, construct-IsValid, setup-IsValid}
use x_cache_manager.Logger.Delivery.{after, delivered, console_sink, put-delivered}
use x_cache_manager.Logger.MultiLog
use x_cache_manager.Logger.Submission.{all_delivered, submit-delivered}

program : Unit {0}
unfolding Logger.construct Logger.allow_default Logger.has_flag Logger.make Logger.setup_stdout
    Logger.setup_stderr Logger.setup_files Logger.setup Logger.new_level Logger.set_level
    Logger.set_stderr Logger.emit Logger.to_stdout Logger.to_stderr Logger.to_files
    Logger.put_critical_impl Logger.put_error_impl Logger.put_warn_impl Logger.put_info_impl
    Logger.put_debug_impl Logger.prefixed Logger.put_critical Logger.put_error Logger.put_warn
    Logger.put_info Logger.put_debug Logger.put_warn_args Logger.written MultiLog.push MultiLog.put
    MultiLog.pop MultiLog.dispatch MultiLog.submit console_sink delivered
program = tt

abbrev always : Sink → Bool
always sink = true

-- A console with both streams at the level of warnings, and a file at the level of debugging.
abbrev ready : Logger
ready = record {
  logger_level_console = 3;
  logger_level_files = 5;
  stderr_enabled = true;
  should_log = λ i. leb i 5;
  logger_stdout = true;
  logger_stderr = true;
  logger_files = true;
  out = [];
}

ready-IsValid : IsValid ready
ready-IsValid = record {
  console = λ h. refl;
  err = λ h. refl;
  file = λ h. refl;
  console_top = refl;
  file_top = refl;
  allowed = λ i h k. refl;
}

abbrev line : Str
line = 104 ∷ 105 ∷ []

warned :
    Logger.put_warn 2 line ready
    ≡ returns tt (record ready { out = (stderr, 3, 2, line) ∷ (files, 3, 2, line) ∷ [] })
unfolding program
warned = refl

-- The switch of the error stream without its logger: a call through a null pointer.
null_stream :
    (setup always always 1 >> (λ s. Logger.put_error 2 line (set_stderr true s))) construct
    ≡ undefined
unfolding program
null_stream = refl

setup-IsValid_example : Ended (setup always always 5 construct)
setup-IsValid_example = setup-IsValid always always 5 construct construct-IsValid

put-delivered_example :
    (Logger.put_critical 2 line ready ≡ returns tt (after (delivered critical 2 line ready) ready))
    × (Logger.put_error 2 line ready ≡ returns tt (after (delivered error 2 line ready) ready))
    × (Logger.put_warn 2 line ready ≡ returns tt (after (delivered warn 2 line ready) ready))
    × (Logger.put_info 2 line ready ≡ returns tt (after (delivered info 2 line ready) ready))
    × (Logger.put_debug 2 line ready ≡ returns tt (after (delivered debug 2 line ready) ready))
put-delivered_example = put-delivered 2 line ready (omega arith) ready-IsValid

abbrev logs : List (Str × ℕ)
logs = (line, 4) ∷ (1 ∷ [], 2) ∷ []

submit-delivered_example :
    MultiLog.submit 2 logs ready ≡ returns tt (after (all_delivered 2 logs ready) ready)
submit-delivered_example =
    submit-delivered 2 logs ready (omega arith, omega arith, (omega arith, omega arith, tt))
      (omega arith) ready-IsValid
