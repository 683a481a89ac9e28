-- ===== src/Logger.antt =====
-- The logger: src/utils/logger.h and logger.cpp. `creates` and `registers` say whether spdlog makes
-- and registers a logger, or throws. The prefix of a zone stands as the number of the zone, of which
-- src/utils/logging_zones.h has 16; locks, colours, patterns and buffers are left out.
pub mod Invariant
pub mod Delivery
pub mod MultiLog
pub mod Submission
use x_cache_manager.Prelude.{
  ℕ, zero, suc, ◌/◌, ◌%◌, Bool, true, false, ◌&&◌, ◌||◌, not, List, [], ◌∷◌, ◌++◌, Str, Option,
  none, some, ltb, leb, ◌==◌, if◌then◌else◌, is_empty, Outcome, Exec, returns, throws, undefined,
  ◌>>=◌, ◌>>◌, pure,
}
use x_cache_manager.Prelude.Integer.{ℤ, pos, negsuc}

pub data Sink : Type 0 where
  stdout stderr files : Sink

pub data Error : Type 0 where
  setup_error : Error

abbrev pub critical : ℕ
critical = 1

abbrev pub error : ℕ
error = 2

abbrev pub warn : ℕ
warn = 3

abbrev pub info : ℕ
info = 4

abbrev pub debug : ℕ
debug = 5

-- `logger_stdout` and its like: whether the pointer is set. `out` is what the sinks got.
pub record Logger : Type 0 where
  pub logger_level_console : ℕ
  pub logger_level_files : ℕ
  pub stderr_enabled : Bool
  pub should_log : ℕ → Bool
  pub logger_stdout : Bool
  pub logger_stderr : Bool
  pub logger_files : Bool
  pub out : List (Sink × ℕ × ℕ × Str)

abbrev pub M : Type 0 → Type 0
M A = Exec Error Logger A

-- The constructor; `should_log[0]` is never read.
unfoldable pub construct : Logger
construct = record {
  logger_level_console = 0;
  logger_level_files = 0;
  stderr_enabled = false;
  should_log = λ i. false;
  logger_stdout = false;
  logger_stderr = false;
  logger_files = false;
  out = [];
}

-- `for(int i = 1; i <= DEFAULT_LOG_LEVEL; i++)should_log[i].store(true)`.
unfoldable pub allow_default : (ℕ → Bool) → ℕ → Bool
allow_default f i = if leb 1 i && leb i info then true else f i

unfoldable pub has_flag : ℕ → ℕ → Bool
has_flag bit flags = (flags / bit) % 2 == 1

module _ (creates registers : Sink → Bool) where
  -- A logger that is not there yet.
  unfoldable pub make : Sink → Bool → (Logger → Logger) → (Logger → Logger) → M (Unit {0})
  make sink present attach start s =
      if present
      then returns tt s
      else if creates sink
      then if registers sink then returns tt (start (attach s)) else throws setup_error (attach s)
      else throws setup_error s

  unfoldable pub setup_stdout : M (Unit {0})
  setup_stdout s =
      make stdout s.logger_stdout (λ t. record t { logger_stdout = true })
        (λ t. record t { logger_level_console = info; should_log = allow_default t.should_log }) s

  unfoldable pub setup_stderr : M (Unit {0})
  setup_stderr s =
      make stderr s.logger_stderr (λ t. record t { logger_stderr = true })
        (λ t. record t { stderr_enabled = true }) s

  unfoldable pub setup_files : M (Unit {0})
  setup_files s =
      make files s.logger_files (λ t. record t { logger_files = true })
        (λ t. record t { logger_level_files = info; should_log = allow_default t.should_log }) s

  abbrev pub when : Bool → M (Unit {0}) → M (Unit {0})
  when true m = m
  when false m = pure tt

  unfoldable pub setup : ℕ → M (Unit {0})
  setup logger = do
    when (has_flag 1 logger) setup_stdout
    when (has_flag 2 logger) setup_stderr
    when (has_flag 4 logger) setup_files

-- The level is stored where the logger is there and the level is one.
unfoldable pub new_level : Bool → Bool → ℤ → ℕ → ℕ
new_level chosen present (pos level) old =
    if chosen && present && leb level debug then level else old
new_level chosen present (negsuc n) old = old

abbrev pub max : ℕ → ℕ → ℕ
max a b = if ltb a b then b else a

unfoldable pub set_level : ℕ → ℤ → Logger → Logger
set_level type level s =
    let console = new_level (has_flag 1 type) s.logger_stdout level s.logger_level_console in
    let file = new_level (has_flag 2 type) s.logger_files level s.logger_level_files in
    record s {
      logger_level_console = console;
      logger_level_files = file;
      should_log = λ i. leb i (max console file);
    }

unfoldable pub set_stderr : Bool → Logger → Logger
set_stderr enable s = record s { stderr_enabled = enable }

-- A call through a logger's pointer.
unfoldable pub emit : Sink → Bool → ℕ → ℕ → Str → M (Unit {0})
emit sink present level zone msg s =
    if present
    then returns tt (record s { out = s.out ++ (sink, level, zone, msg) ∷ [] })
    else undefined

-- The console half and the file half of the five functions.
unfoldable pub to_stdout : ℕ → ℕ → Str → M (Unit {0})
to_stdout level zone msg s = emit stdout s.logger_stdout level zone msg s

unfoldable pub to_stderr : ℕ → ℕ → Str → M (Unit {0})
to_stderr level zone msg s =
    if s.stderr_enabled
    then emit stderr s.logger_stderr level zone msg s
    else emit stdout s.logger_stdout level zone msg s

unfoldable pub to_files : ℕ → ℕ → Str → M (Unit {0})
to_files level zone msg s = emit files s.logger_files level zone msg s

abbrev pub where_level : (Logger → Bool) → M (Unit {0}) → M (Unit {0})
where_level test m s = if test s then m s else returns tt s

unfoldable pub put_critical_impl : ℕ → Str → M (Unit {0})
put_critical_impl zone msg = do
  where_level (λ s. leb critical s.logger_level_console) (to_stderr critical zone msg)
  where_level (λ s. leb critical s.logger_level_files) (to_files critical zone msg)

unfoldable pub put_error_impl : ℕ → Str → M (Unit {0})
put_error_impl zone msg = do
  where_level (λ s. leb error s.logger_level_console) (to_stderr error zone msg)
  where_level (λ s. leb error s.logger_level_files) (to_files error zone msg)

unfoldable pub put_warn_impl : ℕ → Str → M (Unit {0})
put_warn_impl zone msg = do
  where_level (λ s. leb warn s.logger_level_console) (to_stderr warn zone msg)
  where_level (λ s. leb warn s.logger_level_files) (to_files warn zone msg)

unfoldable pub put_info_impl : ℕ → Str → M (Unit {0})
put_info_impl zone msg = do
  where_level (λ s. leb info s.logger_level_console) (to_stdout info zone msg)
  where_level (λ s. leb info s.logger_level_files) (to_files info zone msg)

unfoldable pub put_debug_impl : ℕ → Str → M (Unit {0})
put_debug_impl zone msg = do
  where_level (λ s. s.logger_level_console == debug) (to_stdout debug zone msg)
  where_level (λ s. s.logger_level_files == debug) (to_files debug zone msg)

-- `logging_prefix[zone]`: past the 16 zones there is nothing to read.
unfoldable pub prefixed : (ℕ → Str → M (Unit {0})) → ℕ → Str → M (Unit {0})
prefixed impl zone msg s = if ltb zone 16 then impl zone msg s else undefined

unfoldable pub put_critical : ℕ → Str → M (Unit {0})
put_critical zone msg s =
    if s.should_log critical then prefixed put_critical_impl zone msg s else returns tt s

unfoldable pub put_error : ℕ → Str → M (Unit {0})
put_error zone msg s =
    if s.should_log error then prefixed put_error_impl zone msg s else returns tt s

unfoldable pub put_warn : ℕ → Str → M (Unit {0})
put_warn zone msg s = if s.should_log warn then prefixed put_warn_impl zone msg s else returns tt s

unfoldable pub put_info : ℕ → Str → M (Unit {0})
put_info zone msg s = if s.should_log info then prefixed put_info_impl zone msg s else returns tt s

unfoldable pub put_debug : ℕ → Str → M (Unit {0})
put_debug zone msg s =
    if s.should_log debug then prefixed put_debug_impl zone msg s else returns tt s

-- The arguments of the variadic versions, written out one after another.
unfoldable pub written : List Str → Str
written [] = []
written (a ∷ args) = a ++ written args

unfoldable pub put_critical_args : ℕ → List Str → M (Unit {0})
put_critical_args zone args s =
    if s.should_log critical then prefixed put_critical_impl zone (written args) s else returns tt s

unfoldable pub put_error_args : ℕ → List Str → M (Unit {0})
put_error_args zone args s =
    if s.should_log error then prefixed put_error_impl zone (written args) s else returns tt s

unfoldable pub put_warn_args : ℕ → List Str → M (Unit {0})
put_warn_args zone args s =
    if s.should_log warn then prefixed put_warn_impl zone (written args) s else returns tt s

unfoldable pub put_info_args : ℕ → List Str → M (Unit {0})
put_info_args zone args s =
    if s.should_log info then prefixed put_info_impl zone (written args) s else returns tt s

unfoldable pub put_debug_args : ℕ → List Str → M (Unit {0})
put_debug_args zone args s =
    if s.should_log debug then prefixed put_debug_impl zone (written args) s else returns tt s
