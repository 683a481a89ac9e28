-- ===== src/Logger/Delivery.antt =====
-- Which lines the put functions of the logger deliver, and to which sinks.
use mathlib.Core.List.{append_assoc, append-nil}
use x_cache_manager.Prelude.{
  ℕ, ◌≡◌, ◌<◌, refl, sym, ap, ◌∙◌, Bool, true, false, ◌&&◌, ltb, leb, ◌==◌, if◌then◌else◌, arith,
  List, [], ◌∷◌, ◌++◌, Str, Bool-cases, inl, inr, Outcome, returns, ◌>>◌,
}
use x_cache_manager.Logger
use x_cache_manager.Logger.{
  Logger, Sink, M, Error, critical, error, warn, info, debug, emit, to_stdout, to_stderr, to_files,
  where_level, put_critical_impl, put_error_impl, put_warn_impl, put_info_impl, put_debug_impl,
  prefixed,
}
use x_cache_manager.Logger.Invariant.{IsValid}

abbrev pub Line : Type 0
Line = Sink × ℕ × ℕ × Str

abbrev pub one_if : Bool → Line → List Line
one_if true l = l ∷ []
one_if false l = []

-- The console gets a line of a warning or worse on its error stream, if that is enabled.
unfoldable pub console_sink : ℕ → Logger → Sink
console_sink level s = if s.stderr_enabled && leb level warn then Sink.stderr else Sink.stdout

unfoldable pub delivered : ℕ → ℕ → Str → Logger → List Line
delivered level zone msg s =
    one_if (leb level s.logger_level_console) (console_sink level s, level, zone, msg)
    ++ one_if (leb level s.logger_level_files) (Sink.files, level, zone, msg)

abbrev pub after : List Line → Logger → Logger
after lines s = record s { out = s.out ++ lines }

then-returns : (m k : M (Unit {0})) (s t : Logger) → m s ≡ returns tt t → (m >> k) s ≡ k t
then-returns m k s t e =
    ap (λ (o : Outcome Error Logger (Unit {0})). ((λ (_ : Logger). o) >> k) s) e

-- One half of a function.
half :
    (test : Logger → Bool) (m : M (Unit {0})) (line : Line) (s : Logger)
    → (test s ≡ true → m s ≡ returns tt (after (line ∷ []) s))
    → where_level test m s ≡ returns tt (after (one_if (test s) line) s)
half test m line s h = elim (Bool-cases (test s)) [
  | inl a ↦ rw a (h a)
  | inr a ↦ rw a (λ i. returns tt (record s { out = sym (append-nil s.out) i }))
]

emit-after :
    (sink : Sink) (present : Bool) (level zone : ℕ) (msg : Str) (s : Logger)
    → present ≡ true
    → emit sink present level zone msg s ≡ returns tt (after ((sink, level, zone, msg) ∷ []) s)
unfolding emit
emit-after sink present level zone msg s h = rw (h, emit) refl

-- Both halves of a function.
halves :
    (c f : Logger → Bool) (con : M (Unit {0})) (level zone : ℕ) (msg : Str) (s : Logger)
    → (c s ≡ true → con s ≡ returns tt (after ((console_sink level s, level, zone, msg) ∷ []) s))
    → ((l : List Line) → f (record s { out = l }) ≡ f s)
    → (f s ≡ true → s.logger_files ≡ true)
    → c s ≡ leb level s.logger_level_console
    → f s ≡ leb level s.logger_level_files
    → (where_level c con >> where_level f (to_files level zone msg)) s
      ≡ returns tt (after (delivered level zone msg s) s)
unfolding to_files delivered
halves c f con level zone msg s first same there cl fl =
    let line : Line = (console_sink level s, level, zone, msg) in
    let t = after (one_if (c s) line) s in
    then-returns (where_level c con) (where_level f (to_files level zone msg)) s t
      (half c con line s first)
    ∙ half f (to_files level zone msg) (Sink.files, level, zone, msg) t
        (λ h. emit-after Sink.files s.logger_files level zone msg t (there (sym (same t.out) ∙ h)))
    ∙ (λ i. returns tt (record s {
      out =
          append_assoc s.out (one_if (cl i) line)
            (one_if ((same t.out ∙ fl) i) (Sink.files, level, zone, msg)) i;
    }))

-- The tests of the five functions.
pub positive : (level n : ℕ) → leb 1 level ≡ true → leb level n ≡ true → leb 1 n ≡ true
positive level n h k = ground arith

module _ (zone : ℕ) (msg : Str) (s : Logger) (v : IsValid s) where
  on_stderr :
      (level : ℕ)
      → leb 1 level ≡ true
      → leb level warn ≡ true
      → leb level s.logger_level_console ≡ true
      → to_stderr level zone msg s
        ≡ returns tt (after ((console_sink level s, level, zone, msg) ∷ []) s)
  unfolding to_stderr console_sink
  on_stderr level one severe h = elim (Bool-cases s.stderr_enabled) [
    | inl e ↦
        let sink : (s.stderr_enabled && leb level warn) ≡ true = ground (arith, e, severe) in
        ap choose e
        ∙ emit-after Sink.stderr s.logger_stderr level zone msg s (v.err e)
        ∙ ap line (sym sink)
    | inr e ↦
        let sink : (s.stderr_enabled && leb level warn) ≡ false = ground (arith, e) in
        ap choose e
        ∙ emit-after Sink.stdout s.logger_stdout level zone msg s
            (v.console (positive level s.logger_level_console one h))
        ∙ ap line (sym sink)
  ]
    where
      choose : Bool → Outcome Error Logger (Unit {0})
      choose b =
          if b
          then emit Sink.stderr s.logger_stderr level zone msg s
          else emit Sink.stdout s.logger_stdout level zone msg s

      line : Bool → Outcome Error Logger (Unit {0})
      line b =
          returns tt (after ((if b then Sink.stderr else Sink.stdout, level, zone, msg) ∷ []) s)

  on_stdout :
      (level : ℕ)
      → leb 1 level ≡ true
      → leb level warn ≡ false
      → leb level s.logger_level_console ≡ true
      → to_stdout level zone msg s
        ≡ returns tt (after ((console_sink level s, level, zone, msg) ∷ []) s)
  unfolding to_stdout console_sink
  on_stdout level one mild h =
      let out : (s.stderr_enabled && leb level warn) ≡ false = ground (arith, mild) in
      rw (out, console_sink)
        (emit-after Sink.stdout s.logger_stdout level zone msg s
          (v.console (positive level s.logger_level_console one h)))

  pub critical-delivered :
      put_critical_impl zone msg s ≡ returns tt (after (delivered critical zone msg s) s)
  unfolding put_critical_impl
  critical-delivered =
      halves (λ s. leb critical s.logger_level_console) (λ s. leb critical s.logger_level_files)
        (to_stderr critical zone msg) critical zone msg s (on_stderr critical refl refl) (λ l. refl)
        v.file refl refl

  pub error-delivered :
      put_error_impl zone msg s ≡ returns tt (after (delivered error zone msg s) s)
  unfolding put_error_impl
  error-delivered =
      halves (λ s. leb error s.logger_level_console) (λ s. leb error s.logger_level_files)
        (to_stderr error zone msg) error zone msg s (on_stderr error refl refl) (λ l. refl)
        (λ h. v.file (positive error s.logger_level_files refl h)) refl refl

  pub warn-delivered : put_warn_impl zone msg s ≡ returns tt (after (delivered warn zone msg s) s)
  unfolding put_warn_impl
  warn-delivered =
      halves (λ s. leb warn s.logger_level_console) (λ s. leb warn s.logger_level_files)
        (to_stderr warn zone msg) warn zone msg s (on_stderr warn refl refl) (λ l. refl)
        (λ h. v.file (positive warn s.logger_level_files refl h)) refl refl

  pub info-delivered : put_info_impl zone msg s ≡ returns tt (after (delivered info zone msg s) s)
  unfolding put_info_impl
  info-delivered =
      halves (λ s. leb info s.logger_level_console) (λ s. leb info s.logger_level_files)
        (to_stdout info zone msg) info zone msg s (on_stdout info refl refl) (λ l. refl)
        (λ h. v.file (positive info s.logger_level_files refl h)) refl refl

  at_top : (n : ℕ) → leb n debug ≡ true → (n == debug) ≡ leb debug n
  at_top n h = ground arith

  pub debug-delivered :
      put_debug_impl zone msg s ≡ returns tt (after (delivered debug zone msg s) s)
  unfolding put_debug_impl
  debug-delivered =
      halves (λ s. s.logger_level_console == debug) (λ s. s.logger_level_files == debug)
        (to_stdout debug zone msg) debug zone msg s
        (λ h. on_stdout debug refl refl (sym (at_top s.logger_level_console v.console_top) ∙ h))
        (λ l. refl)
        (λ h. v.file (
          positive debug s.logger_level_files refl
            (sym (at_top s.logger_level_files v.file_top) ∙ h)))
        (at_top s.logger_level_console v.console_top) (at_top s.logger_level_files v.file_top)

-- A level that is not logged is wanted by no sink.
silent :
    (level : ℕ) (zone : ℕ) (msg : Str) (s : Logger)
    → IsValid s
    → leb 1 level ≡ true
    → leb level debug ≡ true
    → s.should_log level ≡ false
    → delivered level zone msg s ≡ []
unfolding delivered
silent level zone msg s v one top off =
    let none_console : leb level s.logger_level_console ≡ false =
      ground (arith, v.allowed level one top, off) in
    let none_files : leb level s.logger_level_files ≡ false =
      ground (arith, v.allowed level one top, off) in
    ap
      (λ b.
        one_if b (console_sink level s, level, zone, msg)
        ++ one_if (leb level s.logger_level_files) (Sink.files, level, zone, msg))
      none_console
    ∙ ap (λ b. one_if b (Sink.files, level, zone, msg)) none_files

-- The test of `should_log` before the work.
guarded :
    (level zone : ℕ) (msg : Str) (impl : ℕ → Str → M (Unit {0})) (s : Logger)
    → IsValid s
    → leb 1 level ≡ true
    → leb level debug ≡ true
    → zone < 16
    → impl zone msg s ≡ returns tt (after (delivered level zone msg s) s)
    → (if s.should_log level then prefixed impl zone msg s else returns tt s)
      ≡ returns tt (after (delivered level zone msg s) s)
unfolding prefixed
guarded level zone msg impl s v one top small h = elim (Bool-cases (s.should_log level)) [
  | inl on ↦
      let inside : ltb zone 16 ≡ true = ground arith in
      ap (λ (b : Bool). if b then prefixed impl zone msg s else returns tt s) on
      ∙ ap (λ (b : Bool). if b then impl zone msg s else Logger.undefined) inside
      ∙ h
  | inr off ↦
      ap (λ (b : Bool). if b then prefixed impl zone msg s else returns tt s) off
      ∙ (λ i. returns tt (record s { out = sym (append-nil s.out) i }))
      ∙ ap (λ l. returns tt (after l s)) (sym (silent level zone msg s v one top off))
]

-- On a valid logger and in one of the 16 zones, each of put_critical, put_error, put_warn,
-- put_info and put_debug hands its line exactly to the sinks whose level allows it, the console
-- first, and changes nothing else: the test of should_log never keeps a line from a sink that
-- wants it, and no null pointer is used.
pub put-delivered :
    (zone : ℕ) (msg : Str) (s : Logger)
    → zone < 16
    → IsValid s
    → (Logger.put_critical zone msg s ≡ returns tt (after (delivered critical zone msg s) s))
      × (Logger.put_error zone msg s ≡ returns tt (after (delivered error zone msg s) s))
      × (Logger.put_warn zone msg s ≡ returns tt (after (delivered warn zone msg s) s))
      × (Logger.put_info zone msg s ≡ returns tt (after (delivered info zone msg s) s))
      × (Logger.put_debug zone msg s ≡ returns tt (after (delivered debug zone msg s) s))
unfolding Logger.put_critical Logger.put_error Logger.put_warn Logger.put_info Logger.put_debug
put-delivered zone msg s small v = (
  guarded critical zone msg put_critical_impl s v refl refl small (critical-delivered zone msg s v),
  guarded error zone msg put_error_impl s v refl refl small (error-delivered zone msg s v),
  guarded warn zone msg put_warn_impl s v refl refl small (warn-delivered zone msg s v),
  guarded info zone msg put_info_impl s v refl refl small (info-delivered zone msg s v),
  guarded debug zone msg put_debug_impl s v refl refl small (debug-delivered zone msg s v),
)
