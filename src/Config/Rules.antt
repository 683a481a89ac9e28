-- ===== src/Config/Rules.antt =====
-- The checks of values: src/utils/config_checker.h. A rule's map is the list of its entries, in the
-- order in which the program goes through it.
use x_cache_manager.Prelude.{
  ℕ, Bool, true, false, ◌&&◌, ◌||◌, not, List, [], ◌∷◌, none, some, Str, str_eq, ltb, leb, ◌==◌,
  if◌then◌else◌, length, last?,
}
use x_cache_manager.Prelude.Integer.{ℤ, pos, negsuc}
use x_cache_manager.Config.{
  Yaml, length_out_of_range, has_whitespace, path_mismatch, host_invalid, port_out_of_range, Result,
  ok, throws, undefined, ◌>>=◌, ◌>>◌, get_required,
}

pub record StringRule : Type 0 where
  pub min_length : ℕ
  pub max_length : ℕ
  pub trim_whitespace : Bool

-- A regular expression stands as its test of a whole text, `std::regex_match`.
abbrev pub Pattern : Type 0
Pattern = Str → Bool

pub record PathRule : Type 0 where
  pub pattern : Pattern

pub record HostRule : Type 0 where
  pub allow_localhost : Bool
  pub ipv4_pattern : Pattern
  pub ipv6_pattern : Pattern

pub record PortRule : Type 0 where
  pub min_port : ℤ
  pub max_port : ℤ

pub record Rules : Type 0 where
  pub string_rules : List (Str × StringRule)
  pub path_rules : List (Str × PathRule)
  pub host_rules : List (Str × HostRule)
  pub port_rules : List (Str × PortRule)

-- "app.name", "sqlite.path", "redis.host", "redis.port".
abbrev pub app_name : Str
app_name = b'a' ∷ b'p' ∷ b'p' ∷ b'.' ∷ b'n' ∷ b'a' ∷ b'm' ∷ b'e' ∷ []

abbrev pub sqlite_path : Str
sqlite_path = b's' ∷ b'q' ∷ b'l' ∷ b'i' ∷ b't' ∷ b'e' ∷ b'.' ∷ b'p' ∷ b'a' ∷ b't' ∷ b'h' ∷ []

abbrev pub redis_host : Str
redis_host = b'r' ∷ b'e' ∷ b'd' ∷ b'i' ∷ b's' ∷ b'.' ∷ b'h' ∷ b'o' ∷ b's' ∷ b't' ∷ []

abbrev pub redis_port : Str
redis_port = b'r' ∷ b'e' ∷ b'd' ∷ b'i' ∷ b's' ∷ b'.' ∷ b'p' ∷ b'o' ∷ b'r' ∷ b't' ∷ []

abbrev pub localhost : Str
localhost = b'l' ∷ b'o' ∷ b'c' ∷ b'a' ∷ b'l' ∷ b'h' ∷ b'o' ∷ b's' ∷ b't' ∷ []

-- The patterns are the three regular expressions of the source.
unfoldable pub get_default_rules : Pattern → Pattern → Pattern → Rules
get_default_rules linux_path ipv4 ipv6 = record {
  string_rules =
      (app_name, record { min_length = 1; max_length = 50; trim_whitespace = true }) ∷ [];
  path_rules = (sqlite_path, record { pattern = linux_path }) ∷ [];
  host_rules =
      (redis_host, record { allow_localhost = true; ipv4_pattern = ipv4; ipv6_pattern = ipv6 })
      ∷ [];
  port_rules = (redis_port, record { min_port = pos 1; max_port = pos 65535 }) ∷ [];
}

-- `std::isspace` in the C locale.
unfoldable pub isspace : ℕ → Bool
isspace c = c == 32 || (leb 9 c && leb c 13)

-- `front()` and `back()`, which an empty text does not have.
unfoldable pub check_trimmed : Str → Str → Result (Unit {0})
check_trimmed path [] = undefined
check_trimmed path (c ∷ s) = elim (last? (c ∷ s)) [
  | none ↦ undefined
  | some d ↦ if isspace c || isspace d then throws (has_whitespace path) else ok tt
]

unfoldable pub ltb_ℤ : ℤ → ℤ → Bool
ltb_ℤ (pos a) (pos b) = ltb a b
ltb_ℤ (pos a) (negsuc b) = false
ltb_ℤ (negsuc a) (pos b) = true
ltb_ℤ (negsuc a) (negsuc b) = ltb b a

unfoldable pub check_text : Str → StringRule → Str → Result (Unit {0})
check_text path rule val =
    if ltb (length val) rule.min_length || ltb rule.max_length (length val)
    then throws (length_out_of_range path)
    else if rule.trim_whitespace
    then check_trimmed path val
    else ok tt

unfoldable pub check_host_value : Str → HostRule → Str → Result (Unit {0})
check_host_value path rule val =
    if rule.allow_localhost && str_eq val localhost
    then ok tt
    else if not (rule.ipv4_pattern val) && not (rule.ipv6_pattern val)
    then throws (host_invalid path)
    else ok tt

module _ (yaml : Yaml) (root : yaml.Node) where
  unfoldable pub check_string : Str → StringRule → Result (Unit {0})
  check_string path rule = get_required yaml yaml.as_string root path >>= check_text path rule

  unfoldable pub check_path : Str → PathRule → Result (Unit {0})
  check_path path rule = get_required yaml yaml.as_string root path >>= λ val.
      if not (rule.pattern val) then throws (path_mismatch path) else ok tt

  unfoldable pub check_host : Str → HostRule → Result (Unit {0})
  check_host path rule = get_required yaml yaml.as_string root path >>= check_host_value path rule

  unfoldable pub check_port : Str → PortRule → Result (Unit {0})
  check_port path rule = get_required yaml yaml.as_int root path >>= λ val.
      if ltb_ℤ val rule.min_port || ltb_ℤ rule.max_port val
      then throws (port_out_of_range path)
      else ok tt

  -- `for(const auto& p : rules)check(p.first, p.second)`.
  unfoldable pub check_each :
      {R : Type 0} → (Str → R → Result (Unit {0})) → List (Str × R) → Result (Unit {0})
  check_each check [] = ok tt
  check_each check ((path, rule) ∷ rest) =
      let later = check_each check rest in check path rule >> later

  unfoldable pub validate : Rules → Result (Unit {0})
  validate rules = do
    check_each check_string rules.string_rules
    check_each check_path rules.path_rules
    check_each check_host rules.host_rules
    check_each check_port rules.port_rules
