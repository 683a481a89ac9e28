-- ===== src/Serial/Codec.antt =====
-- Words and bytes: reading after writing, writing after reading, and the order of the bytes.
use x_cache_manager.Prelude.{
  ℕ, zero, suc, ◌+◌, ◌*◌, ◌/◌, ◌%◌, ◌^◌, ◌<◌, ◌≤◌, ◌≡◌, refl, ap, ◌∙◌, Bool, true, false, List, [],
  ◌∷◌, ◌++◌, arith, sym, str_eq, str_lt, ltb, ◌||◌, ◌&&◌, ◌==◌, length, drop, take, get_or,
}
use native.Mathlib.Numerals.{add-one}
use x_cache_manager.Serial.{
  ℤ, pos, negsuc, to_unsigned, to_signed, flip_sign, big_endian, read_big_endian,
}

abbrev pub AllBytes : List ℕ → Type 0
AllBytes [] = Unit {0}
AllBytes (b ∷ l) = (b < 256) × AllBytes l

-- The word that bytes make up after `u`.
unfoldable pub join : ℕ → ℕ → List ℕ → ℕ
join m u [] = u
join m u (b ∷ l) = join m ((u * 256 + b) % m) l

pub join32 : (u : ℕ) → u < 2 ^ 32 → join (2 ^ 32) 0 (big_endian 4 u) ≡ u
unfolding join big_endian
join32 u h = omega arith

pub join64 : (u : ℕ) → u < 2 ^ 64 → join (2 ^ 64) 0 (big_endian 8 u) ≡ u
unfolding join big_endian
join64 u h = omega arith

pub join32_lt : (l : List ℕ) → length l ≡ 4 → join (2 ^ 32) 0 l < 2 ^ 32
unfolding join
join32_lt (a ∷ b ∷ c ∷ d ∷ []) e = omega arith
join32_lt l e = absurd (omega arith)

pub join64_lt : (l : List ℕ) → length l ≡ 8 → join (2 ^ 64) 0 l < 2 ^ 64
unfolding join
join64_lt (a ∷ b ∷ c ∷ d ∷ e ∷ f ∷ g ∷ h ∷ []) p = omega arith
join64_lt l p = absurd (omega arith)

pub big_endian-join32 :
    (l : List ℕ) → length l ≡ 4 → AllBytes l → big_endian 4 (join (2 ^ 32) 0 l) ≡ l
unfolding join big_endian
big_endian-join32 (a ∷ b ∷ c ∷ d ∷ []) e h = ground arith
big_endian-join32 l e h = absurd (omega arith)

pub big_endian-join64 :
    (l : List ℕ) → length l ≡ 8 → AllBytes l → big_endian 8 (join (2 ^ 64) 0 l) ≡ l
unfolding join big_endian
big_endian-join64 (a ∷ b ∷ c ∷ d ∷ e ∷ f ∷ g ∷ h ∷ []) p w = ground arith
big_endian-join64 l p w = absurd (omega arith)

pub length-big_endian : (n u : ℕ) → length (big_endian n u) ≡ n
unfolding big_endian
length-big_endian zero u = refl
length-big_endian (suc n) u = ap suc (length-big_endian n u)

pub big_endian32-lt :
    (a b : ℕ) → a < 2 ^ 32 → b < 2 ^ 32 → str_lt (big_endian 4 a) (big_endian 4 b) ≡ ltb a b
unfolding str_lt big_endian
big_endian32-lt a b h k = ground arith

pub big_endian32-eq :
    (a b : ℕ) → a < 2 ^ 32 → b < 2 ^ 32 → str_eq (big_endian 4 a) (big_endian 4 b) ≡ (a == b)
unfolding str_eq big_endian
big_endian32-eq a b h k = ground arith

pub str_lt-append :
    (x x' y y' : List ℕ)
    → length x ≡ length x'
    → str_lt (x ++ y) (x' ++ y') ≡ (str_lt x x' || (str_eq x x' && str_lt y y'))
unfolding str_lt str_eq
str_lt-append [] [] y y' e = refl
str_lt-append [] (c ∷ x') y y' e = ground arith
str_lt-append (b ∷ x) [] y y' e = ground arith
str_lt-append (b ∷ x) (c ∷ x') y y' e = ground (arith, str_lt-append x x' y y' (omega arith))

pub big_endian_halves :
    (a : ℕ) → big_endian 8 a ≡ big_endian 4 (a / 2 ^ 32) ++ big_endian 4 (a % 2 ^ 32)
unfolding big_endian
big_endian_halves a = ground arith

pub big_endian64-lt :
    (a b : ℕ) → a < 2 ^ 64 → b < 2 ^ 64 → str_lt (big_endian 8 a) (big_endian 8 b) ≡ ltb a b
big_endian64-lt a b h k =
    rw
      (
        big_endian_halves a,
        big_endian_halves b,
        str_lt-append (big_endian 4 (a / 2 ^ 32)) (big_endian 4 (b / 2 ^ 32)) _ _
            (length-big_endian 4 _ ∙ sym (length-big_endian 4 (b / 2 ^ 32))),
        big_endian32-lt (a / 2 ^ 32) (b / 2 ^ 32) (omega arith) (omega arith),
        big_endian32-eq (a / 2 ^ 32) (b / 2 ^ 32) (omega arith) (omega arith),
        big_endian32-lt (a % 2 ^ 32) (b % 2 ^ 32) (omega arith) (omega arith),
      )
      (ground arith)

-- Signed numbers of a width.
abbrev pub InRange : ℕ → ℤ → Type 0
InRange m (pos n) = n < m / 2
InRange m (negsuc n) = n < m / 2

abbrev pub lt_ℤ : ℤ → ℤ → Bool
lt_ℤ (pos a) (pos b) = ltb a b
lt_ℤ (pos a) (negsuc b) = false
lt_ℤ (negsuc a) (pos b) = true
lt_ℤ (negsuc a) (negsuc b) = ltb b a

pub signed32 :
    (v : ℤ)
    → InRange (2 ^ 32) v
    → to_signed (2 ^ 32) (flip_sign (2 ^ 32) (flip_sign (2 ^ 32) (to_unsigned (2 ^ 32) v))) ≡ v
unfolding to_signed flip_sign to_unsigned
signed32 (pos n) r = ground arith
signed32 (negsuc n) r = ground arith

pub signed64 :
    (v : ℤ)
    → InRange (2 ^ 64) v
    → to_signed (2 ^ 64) (flip_sign (2 ^ 64) (flip_sign (2 ^ 64) (to_unsigned (2 ^ 64) v))) ≡ v
unfolding to_signed flip_sign to_unsigned
signed64 (pos n) r = ground arith
signed64 (negsuc n) r = ground arith

pub unsigned32 :
    (u : ℕ)
    → u < 2 ^ 32
    → flip_sign (2 ^ 32) (to_unsigned (2 ^ 32) (to_signed (2 ^ 32) (flip_sign (2 ^ 32) u))) ≡ u
unfolding to_signed flip_sign to_unsigned
unsigned32 u h = ground arith

pub unsigned64 :
    (u : ℕ)
    → u < 2 ^ 64
    → flip_sign (2 ^ 64) (to_unsigned (2 ^ 64) (to_signed (2 ^ 64) (flip_sign (2 ^ 64) u))) ≡ u
unfolding to_signed flip_sign to_unsigned
unsigned64 u h = ground arith

-- The flipped pattern counts up from the lowest number.
pub flipped32-lt :
    (a b : ℤ)
    → InRange (2 ^ 32) a
    → InRange (2 ^ 32) b
    → ltb
        (flip_sign (2 ^ 32) (to_unsigned (2 ^ 32) a))
        (flip_sign (2 ^ 32) (to_unsigned (2 ^ 32) b))
      ≡ lt_ℤ a b
unfolding flip_sign to_unsigned
flipped32-lt (pos a) (pos b) r q = ground arith
flipped32-lt (pos a) (negsuc b) r q = ground arith
flipped32-lt (negsuc a) (pos b) r q = ground arith
flipped32-lt (negsuc a) (negsuc b) r q = ground arith

pub flipped64-lt :
    (a b : ℤ)
    → InRange (2 ^ 64) a
    → InRange (2 ^ 64) b
    → ltb
        (flip_sign (2 ^ 64) (to_unsigned (2 ^ 64) a))
        (flip_sign (2 ^ 64) (to_unsigned (2 ^ 64) b))
      ≡ lt_ℤ a b
unfolding flip_sign to_unsigned
flipped64-lt (pos a) (pos b) r q = ground arith
flipped64-lt (pos a) (negsuc b) r q = ground arith
flipped64-lt (negsuc a) (pos b) r q = ground arith
flipped64-lt (negsuc a) (negsuc b) r q = ground arith

-- What the reading loop computes.
pub drop_cons :
    (text : List ℕ) (offset : ℕ)
    → offset < length text
    → drop offset text ≡ get_or text offset 0 ∷ drop (suc offset) text
drop_cons [] offset h = absurd (omega arith)
drop_cons (b ∷ text) zero h = refl
drop_cons (b ∷ text) (suc offset) h = drop_cons text offset (omega arith)

pub read_big_endian-join :
    (m n : ℕ) (text : List ℕ) (offset u : ℕ)
    → offset + n ≤ length text
    → read_big_endian m n text offset u ≡ join m u (take n (drop offset text))
unfolding read_big_endian join
read_big_endian-join m zero text offset u h = refl
read_big_endian-join m (suc n) text offset u h =
    rw (drop_cons text offset (omega arith), add-one offset)
      (read_big_endian-join m n text (suc offset) ((u * 256 + get_or text offset 0) % m)
        (omega arith))

pub flip32-lt : (u : ℕ) → flip_sign (2 ^ 32) u < 2 ^ 32
unfolding flip_sign
flip32-lt u = omega arith

pub flip64-lt : (u : ℕ) → flip_sign (2 ^ 64) u < 2 ^ 64
unfolding flip_sign
flip64-lt u = omega arith
