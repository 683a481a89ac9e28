-- ===== src/Message.antt =====
-- The parser of log lines: src/utils/parser.h and parser.cpp. The reader of JSON is third-party and a
-- parameter: the value of each key of the object that a text holds.
pub mod Fields
use x_cache_manager.Prelude.{
  ℕ, zero, suc, ◌+◌, ◌-◌, ◌^◌, ◌≡◌, Bool, true, false, ◌||◌, List, [], ◌∷◌, Option, none, some, Str,
  ltb, ◌==◌, if◌then◌else◌, is_empty, length, drop, map,
}
use x_cache_manager.Prelude.Integer.{ℤ, pos, negsuc}

-- A value of JSON; a double is the library's, and `structured` an array or object with its dump.
pub data Json : Type 0 where
  null : Json
  boolean : Bool → Json
  signed : ℤ → Json
  unsigned : ℕ → Json
  float : ℕ → Json
  string : Str → Json
  structured : Str → Json

-- `LogValue`. The last is `UnknownType`, with `exist` and `value`.
pub data LogValue : Type 0 where
  nullptr : LogValue
  bool : Bool → LogValue
  int64 : ℤ → LogValue
  uint64 : ℕ → LogValue
  double : ℕ → LogValue
  text : Str → LogValue
  unknown_type : Bool → Str → LogValue

pub data Error : Type 0 where
  invalid_args invalid_json out_of_range : Error
  parse_failed : Error

pub data Result (A : Type 0) : Type 0 where
  ok : A → Result A
  throws : Error → Result A

-- The constructor.
unfoldable pub construct : List Str → Result (List Str)
construct keys = if is_empty keys then throws invalid_args else ok keys

abbrev pub brace : ℕ
brace = 123

-- `find('{')`; `none` is npos.
unfoldable pub find : Str → Option ℕ
find [] = none
find (c ∷ s) =
    let rest = find s in
    if c == brace then some 0 else elim rest [ none ↦ none | some i ↦ some (suc i) ]

-- `ptr == data_raw.size()`, which npos is not for a text that fits into the memory.
unfoldable pub is_at_end : Option ℕ → Str → Bool
is_at_end none s = false
is_at_end (some i) s = i == length s

-- `substr(ptr)`.
unfoldable pub substr : Option ℕ → Str → Result Str
substr none s = throws out_of_range
substr (some i) s = if ltb (length s) i then throws out_of_range else ok (drop i s)

-- `is_number_integer()` of the library, which holds for unsigned numbers too.
unfoldable pub is_number_integer : Json → Bool
is_number_integer (signed n) = true
is_number_integer (unsigned n) = true
is_number_integer _ = false

-- `get<int64_t>()`, a cast of the 64 bits.
unfoldable pub get_int64 : Json → ℤ
get_int64 (signed n) = n
get_int64 (unsigned n) = if ltb n (2 ^ 63) then pos n else negsuc (2 ^ 64 - n - 1)
get_int64 _ = pos 0

-- The branches after the test for integers.
unfoldable pub other_value : Json → LogValue
other_value (unsigned n) = uint64 n
other_value (float d) = double d
other_value (string s) = text s
other_value (structured dump) = unknown_type true dump
other_value _ = unknown_type true []

unfoldable pub log_value : Json → LogValue
log_value null = nullptr
log_value (boolean b) = bool b
log_value val = if is_number_integer val then int64 (get_int64 val) else other_value val

unfoldable pub field : (Str → Option Json) → Str → LogValue
field object key = elim (object key) [ none ↦ unknown_type false [] | some val ↦ log_value val ]

-- The loop over the keys.
unfoldable pub fields : (Str → Option Json) → List Str → List LogValue
fields object [] = []
fields object (key ∷ keys) = field object key ∷ fields object keys

module _ (json_parse : Str → Option (Str → Option Json)) where
  unfoldable pub parse_json : List Str → Str → Result (List LogValue)
  parse_json json_keys data_raw = elim (json_parse data_raw) [
    | none ↦ throws parse_failed
    | some object ↦ ok (fields object json_keys)
  ]

  unfoldable pub parse : List Str → Str → Result (List LogValue)
  parse json_keys data_raw =
      let ptr = find data_raw in
      if is_at_end ptr data_raw then throws invalid_json else elim (substr ptr data_raw) [
        | throws e ↦ throws e
        | ok json_text ↦ parse_json json_keys json_text
      ]
