-- ===== src/Container/Removal.antt =====
-- What a removal, an insertion or a write does to the lookups of a node-based container.
use x_cache_manager.Prelude.{
  ℕ, ◌+◌, ◌≡◌, refl, none, some, List, [], ◌∷◌, ◌++◌, arith, Str, str_eq, str_eq_iff, if◌then◌else◌,
  last?, drop_last,
}
use x_cache_manager.Container.Nodes.{
  Entry, Node, key_of, size_of, values, deref, remove, overwrite, find_key, total, Distinct,
  find_key-deref,
}

pub deref-remove :
    {A : Type 0} (i j : ℕ) (l : List (Node A)) → deref j l ≡ none → deref j (remove i l) ≡ none
unfolding deref remove
deref-remove i j [] h = refl
deref-remove i j (n ∷ l) h = ground (arith, deref-remove i j l)

module _ {A : Type 0} ⦃e : Entry A⦄ where
  find_key-remove-none :
      (i : ℕ) (k : Str) (l : List (Node A)) → find_key k l ≡ none → find_key k (remove i l) ≡ none
  unfolding find_key remove
  find_key-remove-none i k [] h = refl
  find_key-remove-none i k (n ∷ l) h = ground (arith, find_key-remove-none i k l)

  -- Removing a node hides its key and no other.
  pub find_key-remove :
      (i : ℕ) (a : A) (k : Str) (l : List (Node A))
      → Distinct l
      → deref i l ≡ some a
      → find_key k (remove i l) ≡ (if str_eq (key_of a) k then none else find_key k l)
  unfolding find_key deref remove
  find_key-remove i a k [] d h = ground arith
  find_key-remove i a k (n ∷ l) d h = ground (
    arith,
    str_eq_iff (key_of n.value) k,
    str_eq_iff (key_of a) k,
    find_key-remove i a k l d.2,
    find_key-deref i a l d.2,
  )

  pub Distinct-remove : (i : ℕ) (l : List (Node A)) → Distinct l → Distinct (remove i l)
  unfolding remove
  Distinct-remove i [] d = tt
  Distinct-remove i (n ∷ l) d = ground (
    arith,
    Distinct-remove i l d.2,
    find_key-remove-none i (key_of n.value) l d.0,
    deref-remove i n.addr l d.1,
  )

  pub total-remove :
      (i : ℕ) (a : A) (l : List (Node A))
      → deref i l ≡ some a
      → total (values l) ≡ size_of a + total (values (remove i l))
  unfolding deref remove total
  total-remove i a [] h = ground arith
  total-remove i a (n ∷ l) h = ground (arith, total-remove i a l)

  pub total-append : (xs ys : List A) → total (xs ++ ys) ≡ total xs + total ys
  unfolding total
  total-append [] ys = omega arith
  total-append (x ∷ xs) ys = omega (arith, total-append xs ys)

  pub deref-last :
      (l : List (Node A)) (n : Node A)
      → Distinct l
      → last? l ≡ some n
      → deref n.addr l ≡ some n.value
  unfolding last? deref
  deref-last [] n d h = ground arith
  deref-last (m ∷ []) n d h = ground arith
  deref-last (m ∷ o ∷ l) n d h = ground (arith, deref-last (o ∷ l) n d.2)

  -- `pop_back()` removes the last node.
  pub drop_last-remove :
      (l : List (Node A)) (n : Node A)
      → Distinct l
      → last? l ≡ some n
      → drop_last l ≡ remove n.addr l
  unfolding last? drop_last remove
  drop_last-remove [] n d h = ground arith
  drop_last-remove (m ∷ []) n d h = ground arith
  drop_last-remove (m ∷ o ∷ l) n d h =
      ground (arith, drop_last-remove (o ∷ l) n d.2, deref-last (o ∷ l) n d.2)

  -- A write that keeps the key is seen at that key only.
  pub find_key-overwrite :
      (i : ℕ) (a b : A) (k : Str) (l : List (Node A))
      → Distinct l
      → deref i l ≡ some a
      → key_of b ≡ key_of a
      → find_key k (overwrite i b l)
        ≡ (if str_eq (key_of a) k then some (record { addr = i; value = b }) else find_key k l)
  unfolding find_key deref overwrite
  find_key-overwrite i a b k [] d h p = ground arith
  find_key-overwrite i a b k (n ∷ l) d h p = ground (
    arith,
    str_eq_iff (key_of n.value) k,
    str_eq_iff (key_of a) k,
    find_key-overwrite i a b k l d.2,
    find_key-deref i a l d.2,
  )

  deref-overwrite-none :
      (i j : ℕ) (b : A) (l : List (Node A)) → deref j l ≡ none → deref j (overwrite i b l) ≡ none
  unfolding deref overwrite
  deref-overwrite-none i j b [] h = refl
  deref-overwrite-none i j b (n ∷ l) h = ground (arith, deref-overwrite-none i j b l)

  find_key-overwrite-none :
      (i : ℕ) (a b : A) (k : Str) (l : List (Node A))
      → deref i l ≡ some a
      → key_of b ≡ key_of a
      → find_key k l ≡ none
      → find_key k (overwrite i b l) ≡ none
  unfolding find_key deref overwrite
  find_key-overwrite-none i a b k [] h p q = refl
  find_key-overwrite-none i a b k (n ∷ l) h p q = ground (arith, find_key-overwrite-none i a b k l)

  pub Distinct-overwrite :
      (i : ℕ) (a b : A) (l : List (Node A))
      → Distinct l
      → deref i l ≡ some a
      → key_of b ≡ key_of a
      → Distinct (overwrite i b l)
  unfolding deref overwrite
  Distinct-overwrite i a b [] d h p = ground arith
  Distinct-overwrite i a b (n ∷ l) d h p = ground (
    arith,
    Distinct-overwrite i a b l d.2,
    find_key-overwrite-none i a b (key_of n.value) l,
    deref-overwrite-none i n.addr b l d.1,
  )

  pub total-overwrite :
      (i : ℕ) (a b : A) (l : List (Node A))
      → deref i l ≡ some a
      → total (values (overwrite i b l)) + size_of a ≡ total (values l) + size_of b
  unfolding deref overwrite total
  total-overwrite i a b [] h = ground arith
  total-overwrite i a b (n ∷ l) h = ground (arith, total-overwrite i a b l)
