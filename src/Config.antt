-- ===== src/Config.antt =====
-- The configuration: src/utils/config_parser.h, config_parser.cpp and config_checker.h. The reader
-- of YAML and the matching of regular expressions are third-party and parameters. A path is a
-- `std::string`; the texts of the messages and the names of types in them are left out.

pub mod Rules
pub mod Validation
pub mod Definedness
use x_cache_manager.Prelude.{
  ℕ, zero, suc, ◌+◌, ◌≡◌, Bool, true, false, ◌&&◌, ◌||◌, not, List, [], ◌∷◌, ◌++◌, Option, none,
  some, Str, str_eq, ltb, leb, ◌==◌, if◌then◌else◌, is_empty, length, last?,
}
use x_cache_manager.Prelude.Integer.{ℤ, pos, negsuc}

-- What `as<T>()` gives, or which exception it throws.
pub data Conversion (A : Type 0) : Type 0 where
  converted : A → Conversion A
  bad_conversion : Conversion A
  conversion_error : Conversion A

-- `node[segment]`: a node, an undefined one, or an exception, as a scalar throws one.
pub data Child (N : Type 0) : Type 0 where
  defined : N → Child N
  not_defined : Child N
  bad_subscript : Child N

-- How `YAML::LoadFile` ends.
pub data Load (N : Type 0) : Type 0 where
  loaded : N → Load N
  bad_file parser_exception load_exception : Load N

pub record Yaml : Type 1 where
  pub Node : Type 0
  pub child : Node → Str → Child Node
  pub as_string : Node → Conversion Str
  pub as_int : Node → Conversion ℤ
  pub sequence : Node → Option (List Node)

-- `ConfigError` for a path, and the exceptions that are not of that class.
pub data Error : Type 0 where
  path_missing type_mismatch unknown_error : Str → Error
  length_out_of_range has_whitespace path_mismatch host_invalid port_out_of_range : Str → Error
  yaml_exception : Error
  array_missing not_a_sequence : Str → Error
  open_failed parse_failed load_failed : Error

pub data Result (A : Type 0) : Type 0 where
  ok : A → Result A
  throws : Error → Result A
  undefined : Result A

infixl 5 ◌>>=◌ ◌>>◌
abbrev pub ◌>>=◌ : {A B : Type 0} → Result A → (A → Result B) → Result B
ok a >>= f = f a
throws e >>= f = throws e
undefined >>= f = undefined

abbrev pub ◌>>◌ : {B : Type 0} → Result (Unit {0}) → Result B → Result B
m >> k = m >>= λ _. k

-- The constructor.
unfoldable pub construct : {N : Type 0} → Load N → Result N
construct (loaded root) = ok root
construct bad_file = throws open_failed
construct parser_exception = throws parse_failed
construct load_exception = throws load_failed

abbrev pub dot : ℕ
dot = 46

-- `std::getline(ss, segment, '.')` until it fails, which it does where no character is left.
unfoldable pub segments : Str → Str → List Str
segments segment [] = if is_empty segment then [] else segment ∷ []
segments segment (c ∷ path) =
    let next = segments [] path in
    let more = segments (segment ++ c ∷ []) path in if c == dot then segment ∷ next else more

-- The handlers around `as<T>()`.
unfoldable pub checked : {A : Type 0} → Str → Conversion A → Result A
checked path (converted a) = ok a
checked path bad_conversion = throws (type_mismatch path)
checked path conversion_error = throws (unknown_error path)

module _ (yaml : Yaml) where
  open yaml use {Node, child, as_string, as_int, sequence}

  -- The loop of `find`.
  unfoldable pub follow : List Str → Node → Result (Option Node)
  follow [] node = ok (some node)
  follow (segment ∷ rest) node = elim (child node segment) [
    | defined next ↦ follow rest next
    | not_defined ↦ ok none
    | bad_subscript ↦ throws yaml_exception
  ]

  unfoldable pub find : Node → Str → Result (Option Node)
  find root path = follow (segments [] path) root

  -- `as` is `as<T>` of the type asked for.
  unfoldable pub get_required : {A : Type 0} → (Node → Conversion A) → Node → Str → Result A
  get_required convert root path = find root path >>= λ node. elim node [
    | none ↦ throws (path_missing path)
    | some n ↦ checked path (convert n)
  ]

  unfoldable pub get_optional : {A : Type 0} → (Node → Conversion A) → Node → Str → A → Result A
  get_optional convert root path default_val = find root path >>= λ node. elim node [
    | none ↦ ok default_val
    | some n ↦ checked path (convert n)
  ]

  -- The loop of `get_array`.
  unfoldable pub convert_all :
      {A : Type 0} → (Node → Conversion A) → Str → List Node → Result (List A)
  convert_all convert path [] = ok []
  convert_all convert path (n ∷ nodes) =
      let rest = convert_all convert path nodes in
      checked path (convert n) >>= λ v. rest >>= λ vs. ok (v ∷ vs)

  unfoldable pub get_array : {A : Type 0} → (Node → Conversion A) → Node → Str → Result (List A)
  get_array convert root path = find root path >>= λ node. elim node [
    | none ↦ throws (array_missing path)
    | some n ↦ elim (sequence n) [
      | none ↦ throws (not_a_sequence path)
      | some nodes ↦ convert_all convert path nodes
    ]
  ]
