-- ===== src/Message/Fields.antt =====
-- What `parse` of src/utils/parser.cpp gives for a line.
use x_cache_manager.Prelude.{
  ℕ, ◌-◌, ◌^◌, ◌≤◌, ◌<◌, ◌≡◌, ◌≢◌, Bool, true, false, List, [], ◌∷◌, Option, none, some, Str,
}
use x_cache_manager.Prelude.Integer.{ℤ, pos, negsuc}
use x_cache_manager.Message.{
  Json, null, boolean, signed, unsigned, float, string, structured, LogValue, nullptr, bool, int64,
  double, text, unknown_type, parse_failed, Result, ok, throws, brace,
}

-- No character of a text is a brace.
abbrev pub NoBrace : Str → Type 0
NoBrace [] = Unit
NoBrace (c ∷ s) = (c ≢ brace) × NoBrace s

-- The value for a key: which value of JSON stands for it, and what becomes of a number.
pub data Stands : Option Json → LogValue → Type 0 where
  missing : Stands none (unknown_type false [])
  is_null : Stands (some null) nullptr
  is_bool : (b : Bool) → Stands (some (boolean b)) (bool b)
  is_signed : (n : ℤ) → Stands (some (signed n)) (int64 n)
  is_small : (n : ℕ) → n < 2 ^ 63 → Stands (some (unsigned n)) (int64 (pos n))
  is_large : (n : ℕ) → 2 ^ 63 ≤ n → Stands (some (unsigned n)) (int64 (negsuc (2 ^ 64 - n - 1)))
  is_float : (d : ℕ) → Stands (some (float d)) (double d)
  is_text : (s : Str) → Stands (some (string s)) (text s)
  is_structured : (dump : Str) → Stands (some (structured dump)) (unknown_type true dump)

-- One value for each key, in their order.
pub data AllStand (object : Str → Option Json) : List Str → List LogValue → Type 0 where
  no_more : AllStand object [] []
  one_more :
      (key : Str) (keys : List Str) (v : LogValue) (vs : List LogValue)
      → Stands (object key) v
      → AllStand object keys vs
      → AllStand object (key ∷ keys) (v ∷ vs)

-- What becomes of a text that the reader of JSON refuses, or takes for an object.
abbrev pub Parsed : List Str → Option (Str → Option Json) → Result (List LogValue) → Type 0
Parsed keys none r = r ≡ throws parse_failed
Parsed keys (some object) r = (vs : List LogValue) × (r ≡ ok vs) × AllStand object keys vs
