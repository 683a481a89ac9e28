-- ===== src/Container/Values.antt =====
-- A container with its addresses forgotten: the sequence of its entries, looked up by key.
use x_cache_manager.Prelude.{
  ℕ, ◌≡◌, refl, Option, none, some, List, [], ◌∷◌, arith, Str, str_eq, str_eq_iff, if◌then◌else◌,
}
use x_cache_manager.Container.Nodes.{
  Entry, Node, key_of, values, deref, remove, overwrite, find_key, Distinct, find_key-deref,
}

abbrev pub value_of : {A : Type 0} → Option (Node A) → Option A
value_of none = none
value_of (some n) = some n.value

module _ {A : Type 0} ⦃e : Entry A⦄ where
  unfoldable pub find_value : Str → List A → Option A
  find_value k [] = none
  find_value k (a ∷ l) = if str_eq (key_of a) k then some a else find_value k l

  unfoldable pub remove_value : Str → List A → List A
  remove_value k [] = []
  remove_value k (a ∷ l) = if str_eq (key_of a) k then l else a ∷ remove_value k l

  unfoldable pub replace_value : A → List A → List A
  replace_value b [] = []
  replace_value b (a ∷ l) = if str_eq (key_of a) (key_of b) then b ∷ l else a ∷ replace_value b l

  pub find_value-values :
      (k : Str) (l : List (Node A)) → find_value k (values l) ≡ value_of (find_key k l)
  unfolding find_value find_key
  find_value-values k [] = refl
  find_value-values k (n ∷ l) = ground (arith, find_value-values k l)

  pub values-remove :
      (i : ℕ) (a : A) (l : List (Node A))
      → Distinct l
      → deref i l ≡ some a
      → values (remove i l) ≡ remove_value (key_of a) (values l)
  unfolding remove remove_value deref
  values-remove i a [] d h = refl
  values-remove i a (n ∷ l) d h = ground (
    arith,
    values-remove i a l d.2,
    str_eq_iff (key_of n.value) (key_of a),
    find_key-deref i a l d.2,
  )

  pub values-overwrite :
      (i : ℕ) (a b : A) (l : List (Node A))
      → Distinct l
      → deref i l ≡ some a
      → key_of b ≡ key_of a
      → values (overwrite i b l) ≡ replace_value b (values l)
  unfolding overwrite replace_value deref
  values-overwrite i a b [] d h p = refl
  values-overwrite i a b (n ∷ l) d h p = ground (
    arith,
    values-overwrite i a b l d.2,
    str_eq_iff (key_of n.value) (key_of b),
    find_key-deref i a l d.2,
  )
