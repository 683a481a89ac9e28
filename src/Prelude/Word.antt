-- ===== src/Prelude/Word.antt =====
-- `size_t` and `uint64_t`: 64 bits, with the wrap-around written out.
use Prim.Native.Nat.{ℕ, ◌+◌, ◌-◌, ◌%◌, ◌^◌}

abbrev pub add64 : ℕ → ℕ → ℕ
add64 a b = (a + b) % 2 ^ 64

abbrev pub sub64 : ℕ → ℕ → ℕ
sub64 a b = (a + 2 ^ 64 - b) % 2 ^ 64

-- Half of the range: two such sizes add up with no wrap-around.
abbrev pub half64 : ℕ
half64 = 2 ^ 63
