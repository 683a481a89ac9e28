-- ===== src/Lfuda/Order.antt =====
-- `operator<` of the entries of the LFU-DA cache, and the insertion into the set.
use x_cache_manager.Prelude.{
  ℕ, ◌+◌, ◌<◌, ◌≡◌, refl, true, false, none, some, List, [], ◌∷◌, arith, Str, str_eq, str_eq_iff,
  str_lt_trans, str_lt_irrefl, str_lt_connex, if◌then◌else◌, ◌==◌,
}
use x_cache_manager.Container.Nodes.{Node, values, deref, remove, find_key, total, Distinct, Below}
use x_cache_manager.Lfuda.{Cache, cache_entry, less, insert_node, position}

pub less_trans : (a b c : Cache) → less a b ≡ true → less b c ≡ true → less a c ≡ true
unfolding less
less_trans a b c h k = ground (arith, str_lt_trans a.key b.key c.key)

pub less_irrefl : (a : Cache) → less a a ≡ false
unfolding less
less_irrefl a = ground (arith, str_lt_irrefl a.key)

-- Neither is less only where the keys are equal.
pub less_connex : (a b : Cache) → less a b ≡ false → less b a ≡ false → a.key ≡ b.key
unfolding less
less_connex a b h k = ground (arith, str_lt_connex a.key b.key)

abbrev pub AllAbove : Cache → List (Node Cache) → Type 0
AllAbove a [] = Unit {0}
AllAbove a (n ∷ l) = (less a n.value ≡ true) × AllAbove a l

abbrev pub Sorted : List (Node Cache) → Type 0
Sorted [] = Unit {0}
Sorted (n ∷ l) = AllAbove n.value l × Sorted l

AllAbove-trans :
    (a b : Cache) (l : List (Node Cache)) → less a b ≡ true → AllAbove b l → AllAbove a l
AllAbove-trans a b [] h k = tt
AllAbove-trans a b (n ∷ l) h k = (less_trans a b n.value h k.0, AllAbove-trans a b l h k.1)

AllAbove-insert :
    (a : Cache) (n : Node Cache) (l : List (Node Cache))
    → less a n.value ≡ true
    → AllAbove a l
    → AllAbove a (insert_node n l)
unfolding insert_node
AllAbove-insert a n [] h k = (h, tt)
AllAbove-insert a n (m ∷ l) h k = ground (arith, AllAbove-insert a n l h k.1)

-- The insertion of a node into the set of the LFU-DA cache keeps the set in the order of
-- operator<.
pub Sorted-insert : (n : Node Cache) (l : List (Node Cache)) → Sorted l → Sorted (insert_node n l)
unfolding insert_node
Sorted-insert n [] h = (tt, tt)
Sorted-insert n (m ∷ l) h =
    ground
      (arith, Sorted-insert n l h.1, AllAbove-insert m.value n l, AllAbove-trans n.value m.value l)

AllAbove-remove :
    (a : Cache) (i : ℕ) (l : List (Node Cache)) → AllAbove a l → AllAbove a (remove i l)
unfolding remove
AllAbove-remove a i [] h = tt
AllAbove-remove a i (n ∷ l) h = ground (arith, AllAbove-remove a i l h.1)

pub Sorted-remove : (i : ℕ) (l : List (Node Cache)) → Sorted l → Sorted (remove i l)
unfolding remove
Sorted-remove i [] h = tt
Sorted-remove i (n ∷ l) h = ground (arith, Sorted-remove i l h.1, AllAbove-remove n.value i l h.0)

-- A node whose key is new goes in, and is its own position.
pub position_new :
    (n : Node Cache) (l : List (Node Cache)) → find_key n.value.key l ≡ none → position n l ≡ n.addr
unfolding position find_key
position_new n [] h = refl
position_new n (m ∷ l) h =
    ground
      (arith, position_new n l, less_connex n.value m.value, str_eq_iff m.value.key n.value.key)

pub find_key-insert :
    (k : Str) (n : Node Cache) (l : List (Node Cache))
    → find_key n.value.key l ≡ none
    → find_key k (insert_node n l) ≡ (if str_eq n.value.key k then some n else find_key k l)
unfolding insert_node find_key
find_key-insert k n [] h = refl
find_key-insert k n (m ∷ l) h = ground (
  arith,
  find_key-insert k n l,
  less_connex n.value m.value,
  str_eq_iff m.value.key n.value.key,
  str_eq_iff m.value.key k,
  str_eq_iff n.value.key k,
)

deref-insert :
    (i : ℕ) (n : Node Cache) (l : List (Node Cache))
    → find_key n.value.key l ≡ none
    → deref n.addr l ≡ none
    → deref i (insert_node n l) ≡ (if n.addr == i then some n.value else deref i l)
unfolding insert_node deref find_key
deref-insert i n [] h k = refl
deref-insert i n (m ∷ l) h k =
    ground
      (arith, deref-insert i n l, less_connex n.value m.value, str_eq_iff m.value.key n.value.key)

pub Distinct-insert :
    (n : Node Cache) (l : List (Node Cache))
    → find_key n.value.key l ≡ none
    → deref n.addr l ≡ none
    → Distinct l
    → Distinct (insert_node n l)
unfolding insert_node deref find_key
Distinct-insert n [] h k d = (refl, refl, tt)
Distinct-insert n (m ∷ l) h k d = ground (
  arith,
  Distinct-insert n l,
  find_key-insert m.value.key n l,
  deref-insert m.addr n l,
  less_connex n.value m.value,
  str_eq_iff m.value.key n.value.key,
  str_eq_iff n.value.key m.value.key,
)

pub Below-insert :
    (b : ℕ) (n : Node Cache) (l : List (Node Cache))
    → n.addr < b
    → Below b l
    → Below b (insert_node n l)
unfolding insert_node
Below-insert b n [] h w = (h, tt)
Below-insert b n (m ∷ l) h w = ground (arith, Below-insert b n l h w.1)

pub total-insert :
    (n : Node Cache) (l : List (Node Cache))
    → find_key n.value.key l ≡ none
    → total (values (insert_node n l)) ≡ n.value.size + total (values l)
unfolding insert_node total find_key
total-insert n [] h = refl
total-insert n (m ∷ l) h =
    ground
      (arith, total-insert n l, less_connex n.value m.value, str_eq_iff m.value.key n.value.key)
