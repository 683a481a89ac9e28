-- ===== src/Sqlite/Table.antt =====
-- A table with the primary key `key`: its rows in the order of their insertion. `INSERT`, `UPDATE`,
-- `SELECT` and `DELETE` by key, and `ORDER BY ... ASC LIMIT 1` by a strict order of rows.
use x_cache_manager.Prelude.{
  suc, ◌+◌, ◌≡◌, refl, Bool, true, false, Option, none, some, List, [], ◌∷◌, ◌++◌, arith, Str,
  str_eq, str_eq_iff, str_eq_refl, if◌then◌else◌, length, Option-cases, Bool-cases, subst, inl, inr,
}
use x_cache_manager.Container.Nodes.{Entry, key_of, size_of, total}
use x_cache_manager.Container.Values.{find_value, remove_value, replace_value}

abbrev pub All : {A : Type 0} → (A → Type 0) → List A → Type 0
All P [] = Unit {0}
All P (r ∷ l) = P r × All P l

module _ {A : Type 0} (before : A → A → Bool) where
  -- The first row in the order; of rows that tie, the one that was inserted first.
  unfoldable pub first : List A → Option A
  first [] = none
  first (r ∷ l) = elim (first l) [ none ↦ some r | some m ↦ some (if before m r then m else r) ]

  pub first-none : (l : List A) → first l ≡ none → l ≡ []
  unfolding first
  first-none [] h = refl
  first-none (r ∷ l) h = ground arith

module _ {A : Type 0} ⦃e : Entry A⦄ where
  abbrev pub KeysDistinct : List A → Type 0
  KeysDistinct [] = Unit {0}
  KeysDistinct (r ∷ l) = (find_value (key_of r) l ≡ none) × KeysDistinct l

  pub find_value-remove_value :
      (k q : Str) (l : List A)
      → KeysDistinct l
      → find_value q (remove_value k l) ≡ (if str_eq k q then none else find_value q l)
  unfolding find_value remove_value
  find_value-remove_value k q [] d = ground arith
  find_value-remove_value k q (r ∷ l) d = ground (
    arith,
    find_value-remove_value k q l d.1,
    str_eq_iff (key_of r) k,
    str_eq_iff (key_of r) q,
    str_eq_iff k q,
  )

  find_value-remove_value-none :
      (k q : Str) (l : List A) → find_value q l ≡ none → find_value q (remove_value k l) ≡ none
  unfolding find_value remove_value
  find_value-remove_value-none k q [] h = refl
  find_value-remove_value-none k q (r ∷ l) h = ground (arith, find_value-remove_value-none k q l)

  pub KeysDistinct-remove_value :
      (k : Str) (l : List A) → KeysDistinct l → KeysDistinct (remove_value k l)
  unfolding remove_value
  KeysDistinct-remove_value k [] d = tt
  KeysDistinct-remove_value k (r ∷ l) d =
      ground
        (arith, KeysDistinct-remove_value k l d.1, find_value-remove_value-none k (key_of r) l d.0)

  pub All-remove_value :
      (P : A → Type 0) (k : Str) (l : List A) → All P l → All P (remove_value k l)
  unfolding remove_value
  All-remove_value P k [] h = tt
  All-remove_value P k (r ∷ l) h = ground (arith, All-remove_value P k l h.1)

  pub total-remove_value :
      (k : Str) (r : A) (l : List A)
      → find_value k l ≡ some r
      → total l ≡ size_of r + total (remove_value k l)
  unfolding find_value remove_value total
  total-remove_value k r [] h = ground arith
  total-remove_value k r (q ∷ l) h = ground (arith, total-remove_value k r l)

  pub length-remove_value :
      (k : Str) (r : A) (l : List A)
      → find_value k l ≡ some r
      → length l ≡ suc (length (remove_value k l))
  unfolding find_value remove_value
  length-remove_value k r [] h = ground arith
  length-remove_value k r (q ∷ l) h = ground (arith, length-remove_value k r l)

  pub key_of-find_value : (k : Str) (r : A) (l : List A) → find_value k l ≡ some r → key_of r ≡ k
  unfolding find_value
  key_of-find_value k r [] h = ground arith
  key_of-find_value k r (q ∷ l) h = ground (arith, str_eq_iff (key_of q) k, key_of-find_value k r l)

  pub All-find_value :
      (P : A → Type 0) (k : Str) (r : A) (l : List A) → All P l → find_value k l ≡ some r → P r
  unfolding find_value
  All-find_value P k r [] a h = ground arith
  All-find_value P k r (q ∷ l) a h = ground (arith, All-find_value P k r l a.1)

  -- Writing over a row that keeps its key.
  pub find_value-replace_value :
      (b : A) (q : Str) (r : A) (l : List A)
      → find_value (key_of b) l ≡ some r
      → find_value q (replace_value b l) ≡ (if str_eq (key_of b) q then some b else find_value q l)
  unfolding find_value replace_value
  find_value-replace_value b q r [] h = ground arith
  find_value-replace_value b q r (c ∷ l) h = ground (
    arith,
    find_value-replace_value b q r l,
    str_eq_iff (key_of c) (key_of b),
    str_eq_iff (key_of c) q,
    str_eq_iff (key_of b) q,
  )

  find_value-replace_value-none :
      (b : A) (q : Str) (l : List A)
      → find_value q l ≡ none
      → find_value q (replace_value b l) ≡ none
  unfolding find_value replace_value
  find_value-replace_value-none b q [] h = refl
  find_value-replace_value-none b q (c ∷ l) h = ground (
    arith,
    find_value-replace_value-none b q l,
    str_eq_iff (key_of c) (key_of b),
    str_eq_iff (key_of b) q,
  )

  pub KeysDistinct-replace_value :
      (b : A) (l : List A) → KeysDistinct l → KeysDistinct (replace_value b l)
  unfolding replace_value
  KeysDistinct-replace_value b [] d = tt
  KeysDistinct-replace_value b (c ∷ l) d = ground (
    arith,
    KeysDistinct-replace_value b l d.1,
    find_value-replace_value-none b (key_of c) l d.0,
    str_eq_iff (key_of c) (key_of b),
  )

  pub All-replace_value :
      (P : A → Type 0) (b : A) (l : List A) → P b → All P l → All P (replace_value b l)
  unfolding replace_value
  All-replace_value P b [] h a = tt
  All-replace_value P b (c ∷ l) h a = ground (arith, All-replace_value P b l h a.1)

  pub total-replace_value :
      (b r : A) (l : List A)
      → find_value (key_of b) l ≡ some r
      → total (replace_value b l) + size_of r ≡ total l + size_of b
  unfolding find_value replace_value total
  total-replace_value b r [] h = ground arith
  total-replace_value b r (c ∷ l) h = ground (arith, total-replace_value b r l)

  pub find_value-append :
      (q : Str) (l : List A) (c : A)
      → find_value (key_of c) l ≡ none
      → find_value q (l ++ c ∷ []) ≡ (if str_eq (key_of c) q then some c else find_value q l)
  unfolding find_value
  find_value-append q [] c h = refl
  find_value-append q (r ∷ l) c h = ground (
    arith,
    find_value-append q l c,
    str_eq_iff (key_of r) q,
    str_eq_iff (key_of c) q,
    str_eq_iff (key_of r) (key_of c),
  )

  pub KeysDistinct-append :
      (l : List A) (c : A)
      → find_value (key_of c) l ≡ none
      → KeysDistinct l
      → KeysDistinct (l ++ c ∷ [])
  unfolding find_value
  KeysDistinct-append [] c h d = (refl, tt)
  KeysDistinct-append (r ∷ l) c h d = ground (
    arith,
    KeysDistinct-append l c,
    find_value-append (key_of r) l c,
    str_eq_iff (key_of c) (key_of r),
    str_eq_iff (key_of r) (key_of c),
  )

  pub All-append : (P : A → Type 0) (l : List A) (c : A) → All P l → P c → All P (l ++ c ∷ [])
  All-append P [] c a h = (h, tt)
  All-append P (r ∷ l) c a h = (a.0, All-append P l c a.1 h)

  module _ (before : A → A → Bool) where
    -- The first row is in the table, and no row is before it.
    pub find_value-first :
        (l : List A) (m : A)
        → KeysDistinct l
        → first before l ≡ some m
        → find_value (key_of m) l ≡ some m
    unfolding find_value first
    find_value-first [] m d h = ground arith
    find_value-first (r ∷ l) m d h = elim (Option-cases (first before l)) [
      | inl e ↦ ground (arith, e, str_eq_refl (key_of r))
      | inr (x, e) ↦ ground (
        arith,
        e,
        find_value-first l x d.1 e,
        str_eq_refl (key_of r),
        str_eq_iff (key_of r) (key_of x),
      )
    ]

-- A strict order whose complement is transitive, as the lexicographic orders of columns are.
pub record IsWeakOrder {A : Type 0} (before : A → A → Bool) : Type 0 where
  pub step : (a b c : A) → before a b ≡ false → before b c ≡ false → before a c ≡ false
  pub asym : (a b : A) → before a b ≡ true → before b a ≡ false
  pub irrefl : (a : A) → before a a ≡ false

module _ {A : Type 0} (before : A → A → Bool) (w : IsWeakOrder before) where
  NoneBefore-trans :
      (a b : A) (l : List A)
      → before b a ≡ false
      → All (λ r. before r b ≡ false) l
      → All (λ r. before r a ≡ false) l
  NoneBefore-trans a b [] h k = tt
  NoneBefore-trans a b (r ∷ l) h k = (w.step r b a k.0 h, NoneBefore-trans a b l h k.1)

  -- No row comes before the first one.
  pub first_minimal :
      (l : List A) (m : A) → first before l ≡ some m → All (λ r. before r m ≡ false) l
  unfolding first
  first_minimal [] m h = tt
  first_minimal (r ∷ l) m h = elim (Option-cases (first before l)) [
    | inl e ↦ rw (first-none before l e) (ground (arith, e, w.irrefl r), tt)
    | inr (x, e) ↦ elim (Bool-cases (before x r)) [
      | inl lt ↦
          let same : x ≡ m = ground (arith, e, lt) in
          subst (λ y. (before r y ≡ false) × All (λ q. before q y ≡ false) l) same
            (w.asym x r lt, first_minimal l x e)
      | inr ge ↦
          let same : r ≡ m = ground (arith, e, ge) in
          subst (λ y. (before r y ≡ false) × All (λ q. before q y ≡ false) l) same
            (w.irrefl r, NoneBefore-trans r x l ge (first_minimal l x e))
    ]
  ]

-- `ORDER BY` without a limit: an insertion sort, stable in the order of insertion.
module _ {A : Type 0} (before : A → A → Bool) where
  unfoldable pub insert_by : A → List A → List A
  insert_by r [] = r ∷ []
  insert_by r (q ∷ l) = let rest = insert_by r l in if before q r then q ∷ rest else r ∷ q ∷ l

  unfoldable pub order_by : List A → List A
  order_by [] = []
  order_by (r ∷ l) = insert_by r (order_by l)
