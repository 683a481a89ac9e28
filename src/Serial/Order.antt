-- ===== src/Serial/Order.antt =====
-- The order of the bytes of records, against the order of their integers.
use x_cache_manager.Prelude.{
  ℕ, ◌/◌, ◌%◌, ◌^◌, ◌<◌, ◌≡◌, refl, sym, ◌∙◌, Bool, false, ◌&&◌, ◌||◌, List, [], ◌∷◌, ◌++◌, arith,
  str_eq, str_lt, ltb, ◌==◌, length,
}
use x_cache_manager.Serial.{
  ℤ, pos, negsuc, Field, int, int64, uint64, str, serialize_impl, serialize, to_unsigned, flip_sign,
  big_endian,
}
use x_cache_manager.Serial.Codec.{
  InRange, lt_ℤ, length-big_endian, big_endian32-lt, big_endian32-eq, big_endian64-lt,
  big_endian_halves, str_lt-append, flip32-lt, flip64-lt, flipped32-lt, flipped64-lt,
}
use x_cache_manager.Serial.RoundTrip.{Fits, AllFit}

abbrev pub eq_ℤ : ℤ → ℤ → Bool
eq_ℤ (pos a) (pos b) = a == b
eq_ℤ (pos a) (negsuc b) = false
eq_ℤ (negsuc a) (pos b) = false
eq_ℤ (negsuc a) (negsuc b) = a == b

-- Two fields of one integer type.
abbrev pub SameInteger : Field → Field → Type 0
SameInteger (int a) (int b) = Unit {0}
SameInteger (int64 a) (int64 b) = Unit {0}
SameInteger (uint64 a) (uint64 b) = Unit {0}
SameInteger _ _ = ⊥

abbrev pub SameIntegers : List Field → List Field → Type 0
SameIntegers [] [] = Unit {0}
SameIntegers (f ∷ fs) (g ∷ gs) = SameInteger f g × SameIntegers fs gs
SameIntegers _ _ = ⊥

abbrev pub field_lt : Field → Field → Bool
field_lt (int a) (int b) = lt_ℤ a b
field_lt (int64 a) (int64 b) = lt_ℤ a b
field_lt (uint64 a) (uint64 b) = ltb a b
field_lt _ _ = false

abbrev pub field_eq : Field → Field → Bool
field_eq (int a) (int b) = eq_ℤ a b
field_eq (int64 a) (int64 b) = eq_ℤ a b
field_eq (uint64 a) (uint64 b) = a == b
field_eq _ _ = false

abbrev pub record_lt : List Field → List Field → Bool
record_lt (f ∷ fs) (g ∷ gs) = field_lt f g || (field_eq f g && record_lt fs gs)
record_lt _ _ = false

str_eq-append :
    (x x' y y' : List ℕ)
    → length x ≡ length x'
    → str_eq (x ++ y) (x' ++ y') ≡ (str_eq x x' && str_eq y y')
unfolding str_eq
str_eq-append [] [] y y' e = refl
str_eq-append [] (c ∷ x') y y' e = ground arith
str_eq-append (b ∷ x) [] y y' e = ground arith
str_eq-append (b ∷ x) (c ∷ x') y y' e = ground (arith, str_eq-append x x' y y' (omega arith))

big_endian64-eq :
    (a b : ℕ) → a < 2 ^ 64 → b < 2 ^ 64 → str_eq (big_endian 8 a) (big_endian 8 b) ≡ (a == b)
big_endian64-eq a b h k =
    rw
      (
        big_endian_halves a,
        big_endian_halves b,
        str_eq-append (big_endian 4 (a / 2 ^ 32)) (big_endian 4 (b / 2 ^ 32)) _ _
            (length-big_endian 4 _ ∙ sym (length-big_endian 4 (b / 2 ^ 32))),
        big_endian32-eq (a / 2 ^ 32) (b / 2 ^ 32) (omega arith) (omega arith),
        big_endian32-eq (a % 2 ^ 32) (b % 2 ^ 32) (omega arith) (omega arith),
      )
      (ground arith)

flipped32-eq :
    (a b : ℤ)
    → InRange (2 ^ 32) a
    → InRange (2 ^ 32) b
    → (flip_sign (2 ^ 32) (to_unsigned (2 ^ 32) a) == flip_sign (2 ^ 32) (to_unsigned (2 ^ 32) b))
      ≡ eq_ℤ a b
unfolding flip_sign to_unsigned
flipped32-eq (pos a) (pos b) r q = ground arith
flipped32-eq (pos a) (negsuc b) r q = ground arith
flipped32-eq (negsuc a) (pos b) r q = ground arith
flipped32-eq (negsuc a) (negsuc b) r q = ground arith

flipped64-eq :
    (a b : ℤ)
    → InRange (2 ^ 64) a
    → InRange (2 ^ 64) b
    → (flip_sign (2 ^ 64) (to_unsigned (2 ^ 64) a) == flip_sign (2 ^ 64) (to_unsigned (2 ^ 64) b))
      ≡ eq_ℤ a b
unfolding flip_sign to_unsigned
flipped64-eq (pos a) (pos b) r q = ground arith
flipped64-eq (pos a) (negsuc b) r q = ground arith
flipped64-eq (negsuc a) (pos b) r q = ground arith
flipped64-eq (negsuc a) (negsuc b) r q = ground arith

-- One column: the same number of bytes, in the order and with the equality of the numbers.
record Column (f g : Field) : Type 0 where
  size : length (serialize_impl f) ≡ length (serialize_impl g)
  lt : str_lt (serialize_impl f) (serialize_impl g) ≡ field_lt f g
  eq : str_eq (serialize_impl f) (serialize_impl g) ≡ field_eq f g

Column-same : (f g : Field) → SameInteger f g → Fits f → Fits g → Column f g
unfolding serialize_impl
Column-same (int a) (int b) s h k = record {
  size = length-big_endian 4 _ ∙ sym (length-big_endian 4 _);
  lt = big_endian32-lt _ _ (flip32-lt _) (flip32-lt _) ∙ flipped32-lt a b h k;
  eq = big_endian32-eq _ _ (flip32-lt _) (flip32-lt _) ∙ flipped32-eq a b h k;
}
Column-same (int64 a) (int64 b) s h k = record {
  size = length-big_endian 8 _ ∙ sym (length-big_endian 8 _);
  lt = big_endian64-lt _ _ (flip64-lt _) (flip64-lt _) ∙ flipped64-lt a b h k;
  eq = big_endian64-eq _ _ (flip64-lt _) (flip64-lt _) ∙ flipped64-eq a b h k;
}
Column-same (uint64 a) (uint64 b) s h k = record {
  size = length-big_endian 8 _ ∙ sym (length-big_endian 8 _);
  lt = big_endian64-lt a b h k;
  eq = big_endian64-eq a b h k;
}
Column-same (int a) (int64 b) s h k = absurd s
Column-same (int a) (uint64 b) s h k = absurd s
Column-same (int a) (str b) s h k = absurd s
Column-same (int64 a) (int b) s h k = absurd s
Column-same (int64 a) (uint64 b) s h k = absurd s
Column-same (int64 a) (str b) s h k = absurd s
Column-same (uint64 a) (int b) s h k = absurd s
Column-same (uint64 a) (int64 b) s h k = absurd s
Column-same (uint64 a) (str b) s h k = absurd s
Column-same (str a) g s h k = absurd s

-- The serializations of two records with the same integer types, whose fields fit them, compare
-- byte by byte as the records compare column by column.
pub serialize-lt :
    (fs gs : List Field)
    → SameIntegers fs gs
    → AllFit fs
    → AllFit gs
    → str_lt (serialize fs) (serialize gs) ≡ record_lt fs gs
unfolding serialize str_lt
serialize-lt [] [] s h k = refl
serialize-lt [] (g ∷ gs) s h k = absurd s
serialize-lt (f ∷ fs) [] s h k = absurd s
serialize-lt (f ∷ fs) (g ∷ gs) s h k =
    let c = Column-same f g s.0 h.0 k.0 in
    str_lt-append (serialize_impl f) (serialize_impl g) (serialize fs) (serialize gs) c.size
    ∙ rw (c.lt, c.eq, serialize-lt fs gs s.1 h.1 k.1)
