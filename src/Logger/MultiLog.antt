-- ===== src/Logger/MultiLog.antt =====
-- `MultiLog`: lines that are collected and handed to the logger together.
use x_cache_manager.Prelude.{
  ℕ, ◌||◌, List, [], ◌∷◌, ◌++◌, Str, ltb, ◌==◌, if◌then◌else◌, returns, ◌>>◌,
}
use x_cache_manager.Prelude.Integer.{ℤ, pos, negsuc}
use x_cache_manager.Logger.{
  Logger, M, critical, error, warn, info, debug, prefixed, put_critical_impl, put_error_impl,
  put_warn_impl, put_info_impl, put_debug_impl,
}

-- `logs` is a queue whose head is its front.
pub record MultiLog : Type 0 where
  pub logging_zone : ℕ
  pub logs : List (Str × ℕ)

unfoldable pub new_multi : ℕ → MultiLog
new_multi zone = record { logging_zone = zone; logs = [] }

-- `logs.push` where the level is logged.
unfoldable pub push : ℕ → Str → Logger → MultiLog → MultiLog
push level msg s m =
    if s.should_log level then record m { logs = m.logs ++ (msg, level) ∷ [] } else m

unfoldable pub put_critical : Str → Logger → MultiLog → MultiLog
put_critical msg s m = push critical msg s m

unfoldable pub put_error : Str → Logger → MultiLog → MultiLog
put_error msg s m = push error msg s m

unfoldable pub put_warn : Str → Logger → MultiLog → MultiLog
put_warn msg s m = push warn msg s m

unfoldable pub put_info : Str → Logger → MultiLog → MultiLog
put_info msg s m = push info msg s m

unfoldable pub put_debug : Str → Logger → MultiLog → MultiLog
put_debug msg s m = push debug msg s m

unfoldable pub put : Str → ℤ → Logger → MultiLog → MultiLog
put msg (negsuc n) s m = m
put msg (pos level) s m = if ltb level critical || ltb debug level then m else push level msg s m

abbrev rest : List (Str × ℕ) → List (Str × ℕ)
rest [] = []
rest (l ∷ logs) = logs

unfoldable pub pop : MultiLog → MultiLog
pop m = record m { logs = rest m.logs }

-- The switch of `submit`.
unfoldable pub dispatch : ℕ → ℕ → Str → M (Unit {0})
dispatch level zone msg s =
    if level == critical
    then prefixed put_critical_impl zone msg s
    else if level == error
    then prefixed put_error_impl zone msg s
    else if level == warn
    then prefixed put_warn_impl zone msg s
    else if level == info
    then prefixed put_info_impl zone msg s
    else if level == debug
    then prefixed put_debug_impl zone msg s
    else returns tt s

-- The loop of `submit`, which empties the queue.
unfoldable pub submit : ℕ → List (Str × ℕ) → M (Unit {0})
submit zone [] s = returns tt s
submit zone ((msg, level) ∷ logs) s = (dispatch level zone msg >> submit zone logs) s
