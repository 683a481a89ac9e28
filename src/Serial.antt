-- ===== src/Serial.antt =====
-- The record format of the Redis adapter: `serialize` and `deserialize` of src/redis/redis_adapter.h.
-- Bytes are numbers below 256. A shift by 8 n bits is a division by 2 ^ (8 n), a mask of the low
-- byte a remainder by 256, and `u ^ 0x80000000U` adds 2 ^ 31 modulo 2 ^ 32: it flips the top bit.
pub mod Codec
pub mod RoundTrip
pub mod Canonical
pub mod Order
use x_cache_manager.Prelude.{
  ℕ, zero, suc, ◌+◌, ◌-◌, ◌*◌, ◌/◌, ◌%◌, ◌^◌, ◌≡◌, refl, Bool, true, false, Option, none, some,
  List, [], ◌∷◌, ◌++◌, ltb, if◌then◌else◌, length, take, drop, get_or, ◌==◌,
}
pub use x_cache_manager.Prelude.Integer.{ℤ, pos, negsuc}

-- `static_cast` of a signed number to the unsigned type of the same width `m = 2 ^ w`.
unfoldable pub to_unsigned : ℕ → ℤ → ℕ
to_unsigned m (pos n) = n % m
to_unsigned m (negsuc n) = (m - 1) - n % m

unfoldable pub to_signed : ℕ → ℕ → ℤ
to_signed m u = if ltb u (m / 2) then pos u else negsuc (m - 1 - u)

-- `u ^ (m / 2)`.
unfoldable pub flip_sign : ℕ → ℕ → ℕ
flip_sign m u = (u + m / 2) % m

-- `buf[i] = (u >> 8 * (n - 1 - i)) & 0xFF` for `i` from 0 to `n - 1`.
unfoldable pub big_endian : ℕ → ℕ → List ℕ
big_endian zero u = []
big_endian (suc n) u = (u / 2 ^ (8 * n)) % 256 ∷ big_endian n u

pub data Field : Type 0 where
  int : ℤ → Field
  int64 : ℤ → Field
  uint64 : ℕ → Field
  str : List ℕ → Field

unfoldable pub serialize_impl : Field → List ℕ
serialize_impl (int v) = big_endian 4 (flip_sign (2 ^ 32) (to_unsigned (2 ^ 32) v))
serialize_impl (int64 v) = big_endian 8 (flip_sign (2 ^ 64) (to_unsigned (2 ^ 64) v))
serialize_impl (uint64 v) = big_endian 8 v
serialize_impl (str s) = big_endian 4 (length s % 2 ^ 32) ++ s

unfoldable pub serialize : List Field → List ℕ
serialize [] = []
serialize (f ∷ rest) = serialize_impl f ++ serialize rest

-- The types of the variables that `deserialize` fills.
pub data Kind : Type 0 where
  int int64 uint64 str : Kind

abbrev pub kind_of : Field → Kind
kind_of (int v) = Kind.int
kind_of (int64 v) = Kind.int64
kind_of (uint64 v) = Kind.uint64
kind_of (str s) = Kind.str

-- `u = (u << 8) | str[offset + i]` for `n` rounds, in a word of `m = 2 ^ w`.
unfoldable pub read_big_endian : ℕ → ℕ → List ℕ → ℕ → ℕ → ℕ
read_big_endian m zero text offset u = u
read_big_endian m (suc n) text offset u =
    read_big_endian m n text (offset + 1) ((u * 256 + get_or text offset 0) % m)

-- A word of `n` bytes at the offset, with the next offset, or false.
unfoldable pub read_word : ℕ → ℕ → List ℕ → ℕ → Option (ℕ × ℕ)
read_word m n text offset =
    if ltb (length text) (offset + n)
    then none
    else some (read_big_endian m n text offset 0, offset + n)

abbrev pub with_word : Option (ℕ × ℕ) → (ℕ → ℕ → Option (Field × ℕ)) → Option (Field × ℕ)
with_word none f = none
with_word (some (u, offset)) f = f u offset

-- `str.substr(offset, len)`.
unfoldable pub substr : List ℕ → ℕ → ℕ → List ℕ
substr text offset len = take len (drop offset text)

unfoldable pub deserialize_impl : Kind → List ℕ → ℕ → Option (Field × ℕ)
deserialize_impl Kind.int text offset =
    with_word (read_word (2 ^ 32) 4 text offset)
      (λ u next. some (int (to_signed (2 ^ 32) (flip_sign (2 ^ 32) u)), next))
deserialize_impl Kind.int64 text offset =
    with_word (read_word (2 ^ 64) 8 text offset)
      (λ u next. some (int64 (to_signed (2 ^ 64) (flip_sign (2 ^ 64) u)), next))
deserialize_impl Kind.uint64 text offset =
    with_word (read_word (2 ^ 64) 8 text offset) (λ u next. some (uint64 u, next))
deserialize_impl Kind.str text offset = with_word (read_word (2 ^ 32) 4 text offset) (λ len next.
    if ltb (length text) (next + len) then none else some (str (substr text next len), next + len))

abbrev pub cons_field : Field → Option (List Field) → Option (List Field)
cons_field f none = none
cons_field f (some fs) = some (f ∷ fs)

-- `offset == str.size()` at the end: all of the text is used.
unfoldable pub deserialize_all : List Kind → List ℕ → ℕ → Option (List Field)
deserialize_all [] text offset = if offset == length text then some [] else none
deserialize_all (k ∷ ks) text offset = elim (deserialize_impl k text offset) [
  | none ↦ none
  | some (f, next) ↦ cons_field f (deserialize_all ks text next)
]

unfoldable pub deserialize : List Kind → List ℕ → Option (List Field)
deserialize ks text = deserialize_all ks text 0
