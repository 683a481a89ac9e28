-- ===== src/Prelude/Lists.antt =====
-- Lists measured by native numbers.
use Prim.Native.Nat.{ℕ, zero, suc, ◌+◌}
use mathlib.Core.Path.{◌≡◌, refl, ap}
use mathlib.Core.List.{List, [], ◌∷◌, ◌++◌}
use mathlib.Core.Bool.{Bool, true, false}
use mathlib.Core.Option.{Option, none, some}
use native.Mathlib.Omega.{arith}

module _ {ℓ} {A : Type ℓ} where
  abbrev pub length : List A → ℕ
  length [] = 0
  length (x ∷ xs) = suc (length xs)

  abbrev pub is_empty : List A → Bool
  is_empty [] = true
  is_empty (x ∷ xs) = false

  -- The last element, `*--l.end()`.
  unfoldable pub last? : List A → Option A
  last? [] = none
  last? (x ∷ []) = some x
  last? (x ∷ y ∷ l) = last? (y ∷ l)

  -- `l.pop_back()`.
  unfoldable pub drop_last : List A → List A
  drop_last [] = []
  drop_last (x ∷ []) = []
  drop_last (x ∷ y ∷ l) = x ∷ drop_last (y ∷ l)

  pub length-append : (xs ys : List A) → length (xs ++ ys) ≡ length xs + length ys
  length-append [] ys = omega arith
  length-append (x ∷ xs) ys = omega (arith, length-append xs ys)

  pub drop_last-append : (l : List A) (a : A) → last? l ≡ some a → drop_last l ++ a ∷ [] ≡ l
  unfolding last? drop_last
  drop_last-append [] a e = ground arith
  drop_last-append (x ∷ []) a e = ground arith
  drop_last-append (x ∷ y ∷ l) a e = ap (◌∷◌ x) (drop_last-append (y ∷ l) a e)

  pub last?-eq-none : (l : List A) → last? l ≡ none → l ≡ []
  unfolding last?
  last?-eq-none [] e = refl
  last?-eq-none (x ∷ []) e = ground arith
  last?-eq-none (x ∷ y ∷ l) e = ground (arith, last?-eq-none (y ∷ l) e)

  pub length-drop_last :
      (l : List A) (a : A) → last? l ≡ some a → length l ≡ suc (length (drop_last l))
  unfolding last? drop_last
  length-drop_last [] a e = ground arith
  length-drop_last (x ∷ []) a e = refl
  length-drop_last (x ∷ y ∷ l) a e = ap suc (length-drop_last (y ∷ l) a e)

  abbrev pub drop : ℕ → List A → List A
  drop zero xs = xs
  drop (suc n) [] = []
  drop (suc n) (x ∷ xs) = drop n xs

  pub drop-append : (xs ys : List A) → drop (length xs) (xs ++ ys) ≡ ys
  drop-append [] ys = refl
  drop-append (x ∷ xs) ys = drop-append xs ys

  abbrev pub take : ℕ → List A → List A
  take zero xs = []
  take (suc n) [] = []
  take (suc n) (x ∷ xs) = x ∷ take n xs

  abbrev pub get_or : List A → ℕ → A → A
  get_or [] i d = d
  get_or (x ∷ xs) zero d = x
  get_or (x ∷ xs) (suc i) d = get_or xs i d

  pub take-append : (xs ys : List A) → take (length xs) (xs ++ ys) ≡ xs
  take-append [] ys = refl
  take-append (x ∷ xs) ys = ap (◌∷◌ x) (take-append xs ys)
