-- ===== src/Examples/Settings.antt =====
-- Checks of a configuration and of log lines, and the theorems of Config and Message at such inputs.
use x_cache_manager.Prelude.{
  ◌≡◌, ◌≢◌, ◌↔◌, refl, true, false, List, [], ◌∷◌, ◌++◌, Option, none, some, Str, str_eq, last?,
  arith,
}
use x_cache_manager.Prelude.Integer.{pos}
use x_cache_manager.Config
use x_cache_manager.Config.{
  Yaml, Child, defined, not_defined, converted, bad_conversion, Conversion, ok, undefined,
}
use x_cache_manager.Config.Rules
use x_cache_manager.Config.Rules.{Rules, get_default_rules, validate}
use x_cache_manager.Config.Validation.{AllowedBy}
use x_cache_manager.Config.Definedness.{validate_lem}
use x_cache_manager.Message
use x_cache_manager.Message.{Json, signed, LogValue, int64, unknown_type}

program : Unit {0}
unfolding str_eq last? Config.segments Config.checked Config.follow Config.find Config.get_required
    Rules.isspace Rules.check_trimmed Rules.ltb_ℤ Rules.check_text Rules.check_host_value
    Rules.check_string Rules.check_path Rules.check_host Rules.check_port Rules.check_each validate
    get_default_rules
program = tt

-- A document of two levels, by the names on the way to a value.
abbrev child_at : List Str → Str → Child (List Str)
child_at path segment = defined (path ++ segment ∷ [])

-- Every text is "cache", and every number 6379.
abbrev document : Yaml
document = record {
  Node = List Str;
  child = child_at;
  as_string = λ n. converted (b'c' ∷ b'a' ∷ b'c' ∷ b'h' ∷ b'e' ∷ []);
  as_int = λ n. converted (pos 6379);
  sequence = λ n. none;
}

abbrev rules : Rules
rules = record {
  string_rules =
      (Rules.app_name, record { min_length = 1; max_length = 50; trim_whitespace = true }) ∷ [];
  path_rules = (Rules.sqlite_path, record { pattern = λ s. true }) ∷ [];
  host_rules =
      (
        Rules.redis_host,
        record { allow_localhost = true; ipv4_pattern = λ s. false; ipv6_pattern = λ s. true },
      )
      ∷ [];
  port_rules = (Rules.redis_port, record { min_port = pos 1; max_port = pos 65535 }) ∷ [];
}

defaults : get_default_rules (λ s. true) (λ s. false) (λ s. true) ≡ rules
unfolding program
defaults = refl

accepted : validate document [] rules ≡ ok tt
unfolding program
accepted = refl

validate_lem_example :
    (validate document [] rules ≢ undefined)
    × ((validate document [] rules ≡ ok tt) ↔ AllowedBy document [] rules)
validate_lem_example = validate_lem document [] rules ((λ on. omega arith), tt)

-- A reader that finds the number 7 at every key.
abbrev reader : Str → Option (Str → Option Json)
reader s = some (λ key. some (signed (pos 7)))
