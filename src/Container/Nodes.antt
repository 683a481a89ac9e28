-- ===== src/Container/Nodes.antt =====
-- A node-based container (`std::list`, `std::set`): a sequence of nodes, each at an address that
-- an iterator holds. An address that no node has belongs to an iterator that dangles.
use x_cache_manager.Prelude.{
  ℕ, ◌+◌, ◌≤◌, ◌<◌, ◌≡◌, refl, Option, none, some, List, [], ◌∷◌, map, arith, Str, str_eq,
  str_eq_iff, ◌==◌, if◌then◌else◌,
}

-- What the containers read of an entry.
pub record Entry (A : Type 0) : Type 0 where
  pub key : A → Str
  pub size : A → ℕ

abbrev pub key_of : {A : Type 0} ⦃e : Entry A⦄ → A → Str
key_of ⦃e⦄ = e.key

abbrev pub size_of : {A : Type 0} ⦃e : Entry A⦄ → A → ℕ
size_of ⦃e⦄ = e.size

pub record Node (A : Type 0) : Type 0 where
  pub addr : ℕ
  pub value : A

abbrev pub values : {A : Type 0} → List (Node A) → List A
values = map (λ n. n.value)

module _ {A : Type 0} where
  -- `*it`: `none` where the iterator dangles.
  unfoldable pub deref : ℕ → List (Node A) → Option A
  deref i [] = none
  deref i (n ∷ l) = if n.addr == i then some n.value else deref i l

  -- `erase(it)`.
  unfoldable pub remove : ℕ → List (Node A) → List (Node A)
  remove i [] = []
  remove i (n ∷ l) = if n.addr == i then l else n ∷ remove i l

  -- A write through the iterator.
  unfoldable pub overwrite : ℕ → A → List (Node A) → List (Node A)
  overwrite i a [] = []
  overwrite i a (n ∷ l) = if n.addr == i then record n { value = a } ∷ l else n ∷ overwrite i a l

  -- Every address is below the next one to be given out.
  abbrev pub Below : ℕ → List (Node A) → Type 0
  Below b [] = Unit {0}
  Below b (n ∷ l) = (n.addr < b) × Below b l

  pub Below-mono : (b c : ℕ) (l : List (Node A)) → b ≤ c → Below b l → Below c l
  Below-mono b c [] h w = tt
  Below-mono b c (n ∷ l) h w = (omega arith, Below-mono b c l h w.1)

  pub Below-remove : (b i : ℕ) (l : List (Node A)) → Below b l → Below b (remove i l)
  unfolding remove
  Below-remove b i [] w = tt
  Below-remove b i (n ∷ l) w = ground (arith, Below-remove b i l)

  pub Below-overwrite :
      (b i : ℕ) (a : A) (l : List (Node A)) → Below b l → Below b (overwrite i a l)
  unfolding overwrite
  Below-overwrite b i a [] w = tt
  Below-overwrite b i a (n ∷ l) w = ground (arith, Below-overwrite b i a l)

  pub deref-Below : (b : ℕ) (l : List (Node A)) → Below b l → deref b l ≡ none
  unfolding deref
  deref-Below b [] w = refl
  deref-Below b (n ∷ l) w = ground (arith, deref-Below b l)

  pub Below-deref : (b i : ℕ) (a : A) (l : List (Node A)) → Below b l → deref i l ≡ some a → i < b
  unfolding deref
  Below-deref b i a [] w h = ground arith
  Below-deref b i a (n ∷ l) w h = ground (arith, Below-deref b i a l w.1)

module _ {A : Type 0} ⦃e : Entry A⦄ where
  -- The first node with the key.
  unfoldable pub find_key : Str → List (Node A) → Option (Node A)
  find_key k [] = none
  find_key k (n ∷ l) = if str_eq (key_of n.value) k then some n else find_key k l

  unfoldable pub total : List A → ℕ
  total [] = 0
  total (a ∷ l) = size_of a + total l

  -- No two nodes have the same key or the same address.
  abbrev pub Distinct : List (Node A) → Type 0
  Distinct [] = Unit {0}
  Distinct (n ∷ l) = (find_key (key_of n.value) l ≡ none) × (deref n.addr l ≡ none) × Distinct l

  pub key_of-find_key :
      (k : Str) (l : List (Node A)) (n : Node A) → find_key k l ≡ some n → key_of n.value ≡ k
  unfolding find_key
  key_of-find_key k [] n h = ground arith
  key_of-find_key k (m ∷ l) n h =
      ground (arith, str_eq_iff (key_of m.value) k, key_of-find_key k l n)

  -- An iterator that a lookup by key gives does not dangle.
  pub deref-find_key :
      (k : Str) (l : List (Node A)) (n : Node A)
      → Distinct l
      → find_key k l ≡ some n
      → deref n.addr l ≡ some n.value
  unfolding find_key deref
  deref-find_key k [] n d h = ground arith
  deref-find_key k (m ∷ l) n d h = ground (arith, deref-find_key k l n d.2)

  pub find_key-deref :
      (i : ℕ) (a : A) (l : List (Node A))
      → Distinct l
      → deref i l ≡ some a
      → find_key (key_of a) l ≡ some (record { addr = i; value = a })
  unfolding find_key deref
  find_key-deref i a [] d h = ground arith
  find_key-deref i a (m ∷ l) d h =
      ground (arith, str_eq_iff (key_of m.value) (key_of a), find_key-deref i a l d.2)

  -- After an erasure the iterator dangles.
  pub deref-remove_self : (i : ℕ) (l : List (Node A)) → Distinct l → deref i (remove i l) ≡ none
  unfolding deref remove
  deref-remove_self i [] d = refl
  deref-remove_self i (n ∷ l) d = ground (arith, deref-remove_self i l d.2)
