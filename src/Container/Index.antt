-- ===== src/Container/Index.antt =====
-- `std::unordered_map<std::string, Iter>`: keys with the addresses that their iterators hold. The
-- programs never iterate over the map, so the order of its entries is not modelled.
use x_cache_manager.Prelude.{
  ℕ, ◌≡◌, Option, none, some, List, [], ◌∷◌, arith, Str, str_eq, str_eq_iff, if◌then◌else◌,
}

abbrev pub Index : Type 0
Index = List (Str × ℕ)

-- `find(k)`.
unfoldable pub find : Str → Index → Option ℕ
find k [] = none
find k ((j, i) ∷ m) = if str_eq j k then some i else find k m

-- `erase(k)`.
unfoldable pub erase : Str → Index → Index
erase k [] = []
erase k ((j, i) ∷ m) = let rest = erase k m in if str_eq j k then rest else (j, i) ∷ rest

-- `m[k] = i`.
unfoldable pub assign : Str → ℕ → Index → Index
assign k i m = (k, i) ∷ erase k m

pub find-erase :
    (k q : Str) (m : Index) → find q (erase k m) ≡ (if str_eq k q then none else find q m)
unfolding find erase
find-erase k q [] = ground arith
find-erase k q ((j, i) ∷ m) =
    ground (arith, str_eq_iff j k, str_eq_iff j q, str_eq_iff k q, find-erase k q m)

pub find-assign :
    (k q : Str) (i : ℕ) (m : Index)
    → find q (assign k i m) ≡ (if str_eq k q then some i else find q m)
unfolding find assign
find-assign k q i m = ground (arith, find-erase k q m)
