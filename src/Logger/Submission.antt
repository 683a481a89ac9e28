-- ===== src/Logger/Submission.antt =====
-- `submit` of `MultiLog` on a valid logger.
use mathlib.Core.List.{append_assoc, append-nil}
use x_cache_manager.Prelude.{
  ℕ, ◌≡◌, ◌<◌, ◌≤◌, refl, sym, ap, ◌∙◌, subst, true, ltb, arith, List, [], ◌∷◌, ◌++◌, Str, inl, inr,
  Outcome, returns, ◌>>◌, ◌⊎◌,
}
use x_cache_manager.Logger.{
  Logger, M, Error, prefixed, put_critical_impl, put_error_impl, put_warn_impl, put_info_impl,
  put_debug_impl,
}
use x_cache_manager.Logger.Invariant.{IsValid}
use x_cache_manager.Logger.MultiLog.{dispatch, submit}
use x_cache_manager.Logger.Delivery.{
  console_sink, Line, after, delivered, critical-delivered, error-delivered, warn-delivered,
  info-delivered, debug-delivered,
}

abbrev pub AllLevels : List (Str × ℕ) → Type 0
AllLevels [] = Unit {0}
AllLevels (l ∷ logs) = (1 ≤ l.1) × (l.1 ≤ 5) × AllLevels logs

unfoldable pub all_delivered : ℕ → List (Str × ℕ) → Logger → List Line
all_delivered zone [] s = []
all_delivered zone ((msg, level) ∷ logs) s = delivered level zone msg s ++ all_delivered zone logs s

after-IsValid : (l : List Line) (s : Logger) → IsValid s → IsValid (after l s)
after-IsValid l s v = record {
  console = v.console;
  err = v.err;
  file = v.file;
  console_top = v.console_top;
  file_top = v.file_top;
  allowed = v.allowed;
}

prefixed-inside :
    (impl : ℕ → Str → M (Unit {0})) (zone : ℕ) (msg : Str) (s : Logger)
    → zone < 16
    → prefixed impl zone msg s ≡ impl zone msg s
unfolding prefixed
prefixed-inside impl zone msg s small =
    let inside : ltb zone 16 ≡ true = ground arith in rw (inside, prefixed) refl

level_cases : (n : ℕ) → 1 ≤ n → n ≤ 5 → (n ≡ 1) ⊎ ((n ≡ 2) ⊎ ((n ≡ 3) ⊎ ((n ≡ 4) ⊎ (n ≡ 5))))
level_cases n h k = ground arith

dispatch-delivered :
    (level zone : ℕ) (msg : Str) (s : Logger)
    → 1 ≤ level
    → level ≤ 5
    → zone < 16
    → IsValid s
    → dispatch level zone msg s ≡ returns tt (after (delivered level zone msg s) s)
unfolding dispatch
dispatch-delivered level zone msg s h k small v = elim (level_cases level h k) [
  | inl e ↦
      subst Good (sym e)
        (prefixed-inside put_critical_impl zone msg s small ∙ critical-delivered zone msg s v)
  | inr (inl e) ↦
      subst Good (sym e)
        (prefixed-inside put_error_impl zone msg s small ∙ error-delivered zone msg s v)
  | inr (inr (inl e)) ↦
      subst Good (sym e)
        (prefixed-inside put_warn_impl zone msg s small ∙ warn-delivered zone msg s v)
  | inr (inr (inr (inl e))) ↦
      subst Good (sym e)
        (prefixed-inside put_info_impl zone msg s small ∙ info-delivered zone msg s v)
  | inr (inr (inr (inr e))) ↦
      subst Good (sym e)
        (prefixed-inside put_debug_impl zone msg s small ∙ debug-delivered zone msg s v)
]
  where
    Good : ℕ → Type 0
    Good n = dispatch n zone msg s ≡ returns tt (after (delivered n zone msg s) s)

-- On a valid logger and in one of the 16 zones, submit of a MultiLog whose levels are from 1 to 5
-- hands over its lines in their order, each to the sinks whose level allows it.
pub submit-delivered :
    (zone : ℕ) (logs : List (Str × ℕ)) (s : Logger)
    → AllLevels logs
    → zone < 16
    → IsValid s
    → submit zone logs s ≡ returns tt (after (all_delivered zone logs s) s)
unfolding submit all_delivered delivered console_sink
submit-delivered zone [] s h small v = λ i. returns tt (record s { out = sym (append-nil s.out) i })
submit-delivered zone ((msg, level) ∷ logs) s h small v =
    let t = after (delivered level zone msg s) s in
    ap (λ (o : Outcome Error Logger (Unit {0})). ((λ (_ : Logger). o) >> submit zone logs) s)
      (dispatch-delivered level zone msg s h.0 h.1 small v)
    ∙ submit-delivered zone logs t h.2 small (after-IsValid _ s v)
    ∙ (λ i. returns tt (record s {
      out = append_assoc s.out (delivered level zone msg s) (all_delivered zone logs t) i;
    }))
    ∙ ap (λ l. returns tt (after (delivered level zone msg s ++ l) s))
        (same zone logs (delivered level zone msg s))
  where
    same :
        (zone : ℕ) (logs : List (Str × ℕ)) (l : List Line)
        → all_delivered zone logs (after l s) ≡ all_delivered zone logs s
    same zone [] l = refl
    same zone ((msg, level) ∷ logs) l = ap (λ r. delivered level zone msg s ++ r) (same zone logs l)
