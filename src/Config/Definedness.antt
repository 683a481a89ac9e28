-- ===== src/Config/Definedness.antt =====
-- `validate` of src/utils/config_checker.h with rules that ask a trimmed text to have a character.
use x_cache_manager.Prelude.{
  Option, none, some, ◌<◌, ◌≡◌, ◌≢◌, ◌↔◌, inl, inr, refl, true, List, [], ◌∷◌, none, some, Str,
  length, last?, arith, Bool-cases, Option-cases,
}
use x_cache_manager.Config.{
  Yaml, Conversion, converted, defined, not_defined, bad_subscript, yaml_exception, path_missing,
  Result, ok, throws, undefined, ◌>>=◌, get_required, find, checked, follow, segments,
}
use x_cache_manager.Config.Rules.{
  StringRule, PathRule, HostRule, PortRule, Rules, check_trimmed, check_text, check_host_value,
  check_string, check_path, check_host, check_port, check_each, validate,
}
use x_cache_manager.Config.Validation.{last?-some, last?-some, AllowedBy, validate_iff}

abbrev Defined : {A : Type 0} → Result A → Type 0
Defined r = r ≢ undefined

bind-Defined :
    {A B : Type 0} (a : Result A) (f : A → Result B)
    → Defined a
    → ((v : A) → Defined (f v))
    → Defined (a >>= f)
bind-Defined (ok v) f d e = e v
bind-Defined (throws x) f d e = λ y. cc
bind-Defined undefined f d e = absurd (d refl)

checked-Defined : {A : Type 0} (path : Str) (c : Conversion A) → Defined (checked path c)
unfolding checked
checked-Defined path (converted a) = λ y. cc
checked-Defined path _ = λ y. cc

-- A rule that asks for a trimmed text asks for a character.
abbrev pub IsSound : List (Str × StringRule) → Type 0
IsSound [] = Unit
IsSound ((path, rule) ∷ rest) = (rule.trim_whitespace ≡ true → 0 < rule.min_length) × IsSound rest

check_trimmed-Defined : (path : Str) (v : Str) → 0 < length v → Defined (check_trimmed path v)
unfolding check_trimmed
check_trimmed-Defined path [] long = absurd (omega arith)
check_trimmed-Defined path (c ∷ s) long = elim (Option-cases (last? (c ∷ s))) [
  | inl e ↦ absurd (last?-some c s e)
  | inr (d, e) ↦ λ y. ground arith
]

check_text-Defined :
    (path : Str) (rule : StringRule) (v : Str)
    → (rule.trim_whitespace ≡ true → 0 < rule.min_length)
    → Defined (check_text path rule v)
unfolding check_text
check_text-Defined path rule v sound = λ y. elim (Bool-cases rule.trim_whitespace) [
  | inl on ↦ ground (arith, sound on, check_trimmed-Defined path v)
  | inr off ↦ ground arith
]

check_host_value-Defined :
    (path : Str) (rule : HostRule) (v : Str) → Defined (check_host_value path rule v)
unfolding check_host_value
check_host_value-Defined path rule v = λ y. ground arith

module _ (yaml : Yaml) where
  follow-Defined : (l : List Str) (node : yaml.Node) → Defined (follow yaml l node)
  unfolding follow
  follow-Defined [] node = λ y. cc
  follow-Defined (segment ∷ rest) node =
      elim (yaml.child node segment)
        as (λ c. Defined (elim c [
          | defined next ↦ follow yaml rest next
          | not_defined ↦ ok none
          | bad_subscript ↦ throws yaml_exception
        ])) [
          | defined next ↦ follow-Defined rest next
          | not_defined ↦ λ y. cc
          | bad_subscript ↦ λ y. cc
        ]

  get_required-Defined :
      {A : Type 0} (convert : yaml.Node → Conversion A) (root : yaml.Node) (path : Str)
      → Defined (get_required yaml convert root path)
  unfolding get_required find
  get_required-Defined convert root path =
      bind-Defined (follow yaml (segments [] path) root) _ (follow-Defined (segments [] path) root)
        (λ node. found path convert node)
    where
      found :
          {A : Type 0} (path : Str) (convert : yaml.Node → Conversion A) (node : Option yaml.Node)
          → Defined
              (elim node [ none ↦ throws (path_missing path) | some n ↦ checked path (convert n) ])
      found path convert none = λ y. cc
      found path convert (some n) = checked-Defined path (convert n)

  module _ (root : yaml.Node) where
    check_each-Defined :
        {R : Type 0} (check : Str → R → Result (Unit {0})) (l : List (Str × R))
        → ((path : Str) (rule : R) → Defined (check path rule))
        → Defined (check_each yaml root check l)
    unfolding check_each
    check_each-Defined check [] d = λ y. cc
    check_each-Defined check ((path, rule) ∷ rest) d =
        bind-Defined (check path rule) _ (d path rule) (λ u. check_each-Defined check rest d)

    strings-Defined :
        (l : List (Str × StringRule))
        → IsSound l
        → Defined (check_each yaml root (check_string yaml root) l)
    unfolding check_each check_string
    strings-Defined [] sound = λ y. cc
    strings-Defined ((path, rule) ∷ rest) sound =
        bind-Defined (check_string yaml root path rule) _
          (bind-Defined (get_required yaml yaml.as_string root path) (check_text path rule)
            (get_required-Defined yaml.as_string root path)
            (λ v. check_text-Defined path rule v sound.0))
          (λ u. strings-Defined rest sound.1)

    path-Defined : (path : Str) (rule : PathRule) → Defined (check_path yaml root path rule)
    unfolding check_path
    path-Defined path rule =
        bind-Defined (get_required yaml yaml.as_string root path) _
          (get_required-Defined yaml.as_string root path) (λ v y. ground arith)

    host-Defined : (path : Str) (rule : HostRule) → Defined (check_host yaml root path rule)
    unfolding check_host
    host-Defined path rule =
        bind-Defined (get_required yaml yaml.as_string root path) (check_host_value path rule)
          (get_required-Defined yaml.as_string root path) (check_host_value-Defined path rule)

    port-Defined : (path : Str) (rule : PortRule) → Defined (check_port yaml root path rule)
    unfolding check_port
    port-Defined path rule =
        bind-Defined (get_required yaml yaml.as_int root path) _
          (get_required-Defined yaml.as_int root path) (λ v y. ground arith)

    validate-Defined :
        (rules : Rules) → IsSound rules.string_rules → Defined (validate yaml root rules)
    unfolding validate
    validate-Defined rules sound =
        bind-Defined (check_each yaml root (check_string yaml root) rules.string_rules) _
          (strings-Defined rules.string_rules sound)
          (λ a.
            bind-Defined (check_each yaml root (check_path yaml root) rules.path_rules) _
              (check_each-Defined (check_path yaml root) rules.path_rules path-Defined)
              (λ b.
                bind-Defined (check_each yaml root (check_host yaml root) rules.host_rules) _
                  (check_each-Defined (check_host yaml root) rules.host_rules host-Defined)
                  (λ c. check_each-Defined (check_port yaml root) rules.port_rules port-Defined)))

    -- For rules that ask for at least one character wherever they forbid white space at the ends,
    -- validate is never undefined, and it returns exactly where every rule's path leads to a value
    -- of the rule's type that fits the rule.
    pub validate_lem :
        (rules : Rules)
        → IsSound rules.string_rules
        → (validate yaml root rules ≢ undefined)
          × ((validate yaml root rules ≡ ok tt) ↔ AllowedBy yaml root rules)
    validate_lem rules sound = (validate-Defined rules sound, validate_iff yaml root rules)
