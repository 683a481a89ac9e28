-- ===== src/Config/Validation.antt =====
-- What `validate` of src/utils/config_checker.h accepts.
use x_cache_manager.Prelude.{
  ℕ, ◌≤◌, ◌≡◌, ◌≢◌, ◌↔◌, ◌⊎◌, inl, inr, refl, subst, true, false, ◌&&◌, ◌||◌, not, List, [], ◌∷◌,
  none, some, Str, str_eq, str_eq_iff, if◌then◌else◌, length, last?, arith, Bool-cases,
  Option-cases,
}
use x_cache_manager.Prelude.Integer.{ℤ, pos, negsuc}
use x_cache_manager.Config.{
  Yaml, path_mismatch, port_out_of_range, Result, ok, throws, undefined, ◌>>=◌, ◌>>◌, get_required,
}
use x_cache_manager.Config.Rules.{
  StringRule, PathRule, HostRule, PortRule, Rules, isspace, localhost, check_trimmed, ltb_ℤ,
  check_text, check_host_value, check_string, check_path, check_host, check_port, check_each,
  validate,
}

-- The order of the integers.
infix 50 ◌≤ℤ◌
abbrev pub ◌≤ℤ◌ : ℤ → ℤ → Type 0
pos a ≤ℤ pos b = a ≤ b
pos a ≤ℤ negsuc b = ⊥
negsuc a ≤ℤ pos b = Unit
negsuc a ≤ℤ negsuc b = b ≤ a

-- The first and the last character are no spaces.
abbrev pub IsTrimmed : Str → Type 0
IsTrimmed [] = ⊥
IsTrimmed (c ∷ s) = (isspace c ≡ false) × ((d : ℕ) → last? (c ∷ s) ≡ some d → isspace d ≡ false)

abbrev pub StringFits : StringRule → Str → Type 0
StringFits rule v =
    (rule.min_length ≤ length v)
    × (length v ≤ rule.max_length)
    × (rule.trim_whitespace ≡ true → IsTrimmed v)

abbrev pub PathFits : PathRule → Str → Type 0
PathFits rule v = rule.pattern v ≡ true

abbrev pub HostFits : HostRule → Str → Type 0
HostFits rule v =
    ((rule.allow_localhost ≡ true) × (v ≡ localhost))
    ⊎ ((rule.ipv4_pattern v ≡ true) ⊎ (rule.ipv6_pattern v ≡ true))

abbrev pub PortFits : PortRule → ℤ → Type 0
PortFits rule v = (rule.min_port ≤ℤ v) × (v ≤ℤ rule.max_port)

-- Every rule's path has a value that fits the rule.
abbrev pub AllFit : {R V : Type 0} → (Str → Result V) → (R → V → Type 0) → List (Str × R) → Type 0
AllFit get Fits [] = Unit
AllFit {V = V} get Fits ((path, rule) ∷ rest) =
    ((v : V) × (get path ≡ ok v) × Fits rule v) × AllFit get Fits rest

ltb_ℤ-iff : (a b : ℤ) → (ltb_ℤ a b ≡ false) ↔ (b ≤ℤ a)
unfolding ltb_ℤ
ltb_ℤ-iff (pos a) (pos b) = (λ e. ground arith, λ e. ground arith)
ltb_ℤ-iff (pos a) (negsuc b) = (λ e. tt, λ e. refl)
ltb_ℤ-iff (negsuc a) (pos b) = (λ e. cc, λ e. absurd e)
ltb_ℤ-iff (negsuc a) (negsuc b) = (λ e. ground arith, λ e. ground arith)

-- A test of a value, and what it stands for.
abbrev Decides : {V : Type 0} → (V → Result (Unit {0})) → (V → Type 0) → Type 0
Decides {V} test Fits = (v : V) → (test v ≡ ok tt) ↔ Fits v

pub last?-some : (c : ℕ) (s : Str) → last? (c ∷ s) ≢ none
unfolding last?
last?-some c [] e = cc
last?-some c (d ∷ s) e = last?-some d s e

check_trimmed_iff : (path : Str) → Decides (check_trimmed path) IsTrimmed
unfolding check_trimmed
check_trimmed_iff path [] = (λ e. cc, λ e. absurd e)
check_trimmed_iff path (c ∷ s) = elim (Option-cases (last? (c ∷ s))) [
  | inl e ↦ absurd (last?-some c s e)
  | inr (d, e) ↦ (λ x. (ground arith, λ d' e'. ground arith), λ x. ground (arith, x.1 d e))
]

check_text_iff : (path : Str) (rule : StringRule) → Decides (check_text path rule) (StringFits rule)
unfolding check_text
check_text_iff path rule v = (
  λ x. (ground arith, ground arith, λ on. (check_trimmed_iff path v).0 (ground arith)),
  λ x. elim (Bool-cases rule.trim_whitespace) [
    | inl on ↦ ground (arith, (check_trimmed_iff path v).1 (x.2 on))
    | inr off ↦ ground arith
  ],
)

check_host_value_iff :
    (path : Str) (rule : HostRule) → Decides (check_host_value path rule) (HostFits rule)
unfolding check_host_value
check_host_value_iff path rule v = (
  λ x. elim (Bool-cases (rule.allow_localhost && str_eq v localhost)) [
    | inl e ↦ inl (ground arith, (str_eq_iff v localhost).0 (ground arith))
    | inr e ↦ elim (Bool-cases (rule.ipv4_pattern v)) [
      | inl e4 ↦ inr (inl e4)
      | inr e4 ↦ inr (inr (ground arith))
    ]
  ],
  λ x. elim x [
    | inl here ↦ ground (arith, (str_eq_iff v localhost).1 here.1)
    | inr (inl e) ↦ ground arith
    | inr (inr e) ↦ ground arith
  ],
)

check_path_value_iff :
    (path : Str) (rule : PathRule)
    → Decides
        (λ v. if not (rule.pattern v) then throws (path_mismatch path) else ok tt)
        (PathFits rule)
check_path_value_iff path rule v = (λ x. ground arith, λ x. ground arith)

check_port_value_iff :
    (path : Str) (rule : PortRule)
    → Decides
        (λ v.
          if ltb_ℤ v rule.min_port || ltb_ℤ rule.max_port v
          then throws (port_out_of_range path)
          else ok tt)
        (PortFits rule)
check_port_value_iff path rule v = (
  λ x. ((ltb_ℤ-iff v rule.min_port).0 (ground arith), (ltb_ℤ-iff rule.max_port v).0 (ground arith)),
  λ x. ground (arith, (ltb_ℤ-iff v rule.min_port).1 x.0, (ltb_ℤ-iff rule.max_port v).1 x.1),
)

-- A value that is read, and then tested.
read_iff :
    {V : Type 0} (get : Result V) (test : V → Result (Unit {0})) (Fits : V → Type 0)
    → Decides test Fits
    → ((get >>= test) ≡ ok tt) ↔ ((v : V) × (get ≡ ok v) × Fits v)
read_iff (ok v) test Fits d =
    (λ x. (v, refl, (d v).0 x), λ x. let same : x.0 ≡ v = cc (x.1) in (d v).1 (subst Fits same x.2))
read_iff (throws e) test Fits d = (λ x. cc, λ x. cc (x.1))
read_iff undefined test Fits d = (λ x. cc, λ x. cc (x.1))

then_iff :
    {P Q : Type 0} (a b : Result (Unit {0}))
    → (a ≡ ok tt) ↔ P
    → (b ≡ ok tt) ↔ Q
    → ((a >> b) ≡ ok tt) ↔ (P × Q)
then_iff (ok tt) b p q = (λ x. (p.0 refl, q.0 x), λ x. q.1 x.1)
then_iff (throws e) b p q = (λ x. cc, λ x. cc (p.1 x.0))
then_iff undefined b p q = (λ x. cc, λ x. cc (p.1 x.0))

module _ (yaml : Yaml) (root : yaml.Node) where
  check_each_iff :
      {R V : Type 0} (check : Str → R → Result (Unit {0})) (get : Str → Result V)
      (Fits : R → V → Type 0)
      → ((path : Str) (rule : R)
          → (check path rule ≡ ok tt) ↔ ((v : V) × (get path ≡ ok v) × Fits rule v))
      → (l : List (Str × R)) → (check_each yaml root check l ≡ ok tt) ↔ AllFit get Fits l
  unfolding check_each
  check_each_iff check get Fits d [] = (λ x. tt, λ x. refl)
  check_each_iff check get Fits d ((path, rule) ∷ rest) =
      then_iff (check path rule) (check_each yaml root check rest) (d path rule)
        (check_each_iff check get Fits d rest)

  -- The text, or the number, at a path.
  abbrev pub text_at : Str → Result Str
  text_at = get_required yaml yaml.as_string root

  abbrev pub number_at : Str → Result ℤ
  number_at = get_required yaml yaml.as_int root

  abbrev pub AllowedBy : Rules → Type 0
  AllowedBy rules =
      AllFit text_at StringFits rules.string_rules
      × (AllFit text_at PathFits rules.path_rules
          × (AllFit text_at HostFits rules.host_rules × AllFit number_at PortFits rules.port_rules))

  pub validate_iff : (rules : Rules) → (validate yaml root rules ≡ ok tt) ↔ AllowedBy rules
  unfolding validate check_string check_path check_host check_port
  validate_iff rules =
      then_iff _ _
        (check_each_iff (check_string yaml root) text_at StringFits
          (λ path rule. read_iff (text_at path) _ _ (check_text_iff path rule)) rules.string_rules)
        (then_iff _ _
          (check_each_iff (check_path yaml root) text_at PathFits
            (λ path rule. read_iff (text_at path) _ _ (check_path_value_iff path rule))
            rules.path_rules)
          (then_iff _ _
            (check_each_iff (check_host yaml root) text_at HostFits
              (λ path rule. read_iff (text_at path) _ _ (check_host_value_iff path rule))
              rules.host_rules)
            (check_each_iff (check_port yaml root) number_at PortFits
              (λ path rule. read_iff (number_at path) _ _ (check_port_value_iff path rule))
              rules.port_rules)))
