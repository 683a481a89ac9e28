-- ===== src/Lru/Refinement.antt =====
-- Each member function of the LRU cache against the model.
use x_cache_manager.Prelude.{
  ℕ, ◌-◌, ◌+◌, ◌<◌, ◌≡◌, ◌⊎◌, inl, inr, refl, sym, subst, ap, ◌∙◌, arith, true, false, none, some,
  List, [], ◌∷◌, ◌++◌, Str, str_eq_iff, ltb, ◌==◌, is_empty, length, drop, drop-append, Outcome,
  half64, Option-cases, Bool-cases, ltb→lt,
}
use mathlib.Core.List.{map-append}
use x_cache_manager.Container.Nodes.{
  Node, values, deref, find_key, Distinct, total, find_key-deref, deref-find_key, key_of-find_key,
}
use x_cache_manager.Container.Index.{find}
use x_cache_manager.Container.Values.{
  find_value, remove_value, find_value-values, values-remove, values-overwrite,
}
use x_cache_manager.Simulation.{Follows}
use x_cache_manager.Lru
use x_cache_manager.Lru.{Cache, cache_entry, Error, Lru, M, remove_cache}
use x_cache_manager.Lru.Invariant.{
  IsValid, splice-IsValid, max_size-IsValid, write_size-IsValid, push_front-IsValid,
}
use x_cache_manager.Lru.Eviction.{HasRoom, remove_cache-HasRoom, report}
use x_cache_manager.Lru.Model
use x_cache_manager.Lru.Model.{Model, R, view, make_room}

-- The concrete outcome, in a valid state, shows the abstract one.
abbrev pub Refines : {A : Type 0} → Outcome Error Lru A → R A → Type 0
Refines = Follows view IsValid

-- A lookup through the map, and what it finds.
abbrev Lookup : Str → Lru → Type 0
Lookup k s =
    ((find k s.cache_map ≡ none)
      × (find_key k s.cache_list ≡ none)
      × (find_value k (values s.cache_list) ≡ none))
    ⊎ ((i : ℕ) × (c : Cache) × (find k s.cache_map ≡ some i)
        × (deref i s.cache_list ≡ some c)
        × (find_value k (values s.cache_list) ≡ some c)
        × (c.key ≡ k))

Lookup-cases : (k : Str) (s : Lru) → IsValid s → Lookup k s
Lookup-cases k s v = elim (Option-cases (find_key k s.cache_list)) [
  | inl e ↦ inl (ground (arith, v.synced k), e, ground (arith, find_value-values k s.cache_list))
  | inr (n, e) ↦ inr (
    n.addr,
    n.value,
    ground (arith, v.synced k),
    deref-find_key k s.cache_list n v.distinct e,
    ground (arith, find_value-values k s.cache_list),
    key_of-find_key k s.cache_list n e,
  )
]

-- `remove_cache` is `make_room`.
remove_cache-make_room :
    (required : ℕ) (s : Lru)
    → required < half64
    → IsValid s
    → view (remove_cache required s) ≡ make_room required (view s)
unfolding make_room
remove_cache-make_room required s small v =
    let room = remove_cache-HasRoom required s small v in
    let t = remove_cache required s in
    let parts = ap values room.split ∙ map-append (λ n. n.value) t.cache_list room.removed in
    let rest =
      sym (drop-append (values t.cache_list) (values room.removed))
      ∙ ap (drop (length (values t.cache_list))) (sym parts)
      ∙ ap (λ l. drop (length l) (values s.cache_list)) room.kept in
    λ i. record {
      limit = room.max_size i;
      entries = room.kept i;
      callbacks = (room.reported ∙ ap (λ l. s.callbacks ++ report l) rest) i;
    }

-- An iterator survives an eviction exactly when the entry of its key does.
deref-prefix :
    (i : ℕ) (a : Cache) (p q : List (Node Cache))
    → Distinct (p ++ q)
    → deref i (p ++ q) ≡ some a
    → deref i p ≡ find_value a.key (values p)
unfolding deref find_value
deref-prefix i a [] q d h = refl
deref-prefix i a (n ∷ p) q d h =
    ground (
      arith,
      deref-prefix i a p q d.2,
      str_eq_iff n.value.key a.key,
      find_key-deref i a (p ++ q) d.2,
    )

pub renew-Refines :
    (k : Str) (s : Lru) → IsValid s → Refines (Lru.renew k s) (Model.renew k (view s))
unfolding Lru.renew Model.renew
renew-Refines k s v = elim (Lookup-cases k s v) [
  | inl (miss, _, gone) ↦ rw (miss, gone, Lru.renew, Model.renew) (refl, v, refl)
  | inr (i, c, hit, here, found, key) ↦
      rw (hit, here, found, Lru.renew, Model.renew)
        (
          refl,
          splice-IsValid s i c v here,
          λ j. record {
            limit = s.max_size;
            entries =
                c
                ∷ (values-remove i c s.cache_list v.distinct here
                      ∙ ap (λ q. remove_value q (values s.cache_list)) key)
                    j;
            callbacks = s.callbacks;
          },
        )
]

pub query-Refines :
    (k : Str) (s : Lru) → IsValid s → Refines (Lru.query k s) (Model.query k (view s))
unfolding Lru.query Model.query
query-Refines k s v = elim (Lookup-cases k s v) [
  | inl (miss, _, gone) ↦ rw (miss, gone, Lru.query, Model.query) (refl, v, refl)
  | inr (i, c, hit, here, found, key) ↦
      rw (hit, here, found, Lru.query, Model.query) (refl, v, refl)
]

pub update-Refines :
    (k : Str) (size : ℕ) (s : Lru)
    → IsValid s
    → Refines (Lru.update k size s) (Model.update k size (view s))
unfolding Lru.update Model.update
update-Refines k size s v = elim (Lookup-cases k s v) [
  | inl (miss, _, gone) ↦ rw (miss, gone, Lru.update, Model.update) tt
  | inr (i, c, hit, here, found, key) ↦ rw (hit, found, Lru.update, Model.update) (refl, v, refl)
]

pub resize-Refines :
    (n : ℕ) (s : Lru) → n < half64 → IsValid s → Refines (Lru.resize n s) (Model.resize n (view s))
unfolding Lru.resize Model.resize
resize-Refines n s small v = elim (Bool-cases (n == 0)) [
  | inl z ↦ rw (z, Lru.resize, Model.resize) (refl, v, refl)
  | inr nz ↦
      let w = max_size-IsValid s n small v in
      rw (nz, Lru.resize, Model.resize)
        (
          refl,
          (remove_cache-HasRoom 0 (record s { max_size = n }) (omega arith) w).valid,
          remove_cache-make_room 0 (record s { max_size = n }) (omega arith) w,
        )
]

find_key-prefix :
    (k : Str) (p q : List (Node Cache)) → find_key k (p ++ q) ≡ none → find_key k p ≡ none
unfolding find_key
find_key-prefix k [] q h = refl
find_key-prefix k (n ∷ p) q h = ground (arith, find_key-prefix k p q)

deref-append :
    (i : ℕ) (a b : Cache) (p q : List (Node Cache))
    → deref i (p ++ q) ≡ some a
    → deref i p ≡ some b
    → b ≡ a
unfolding deref
deref-append i a b [] q h e = ground arith
deref-append i a b (n ∷ p) q h e = ground (arith, deref-append i a b p q)

room_bound :
    (required : ℕ) (s t : Lru)
    → HasRoom required s t
    → required < half64
    → s.max_size < half64
    → t.cache_size + required < half64
unfolding total
room_bound required s t room small limit = elim room.ends [
  | inl e ↦ omega (arith, room.valid.accounted, ap (λ l. total (values l)) e)
  | inr fits ↦ omega arith
]

grow_bound :
    (size : ℕ) (it : Cache) (s t : Lru) (i : ℕ) (c : Cache)
    → HasRoom (size - it.size) s t
    → IsValid s
    → it.size < size
    → deref i t.cache_list ≡ some c
    → t.cache_size + size < half64 + it.size
unfolding deref
grow_bound size it s t i c room v grows e = elim room.ends [
  | inl nil ↦ let gone = sym e ∙ ap (deref i) nil in cc
  | inr fits ↦ omega (arith, v.max_small)
]

insert-IsValid :
    (c : Cache) (s : Lru)
    → c.size < half64
    → IsValid s
    → find_key c.key s.cache_list ≡ none
    → IsValid (Lru.insert c s)
unfolding Lru.insert
insert-IsValid c s small v new =
    let room = remove_cache-HasRoom c.size s small v in
    let t = remove_cache c.size s in
    let gone =
      find_key-prefix c.key t.cache_list room.removed
        (subst (λ l. find_key c.key l ≡ none) room.split new) in
    let bound = room_bound c.size s t room small v.max_small in
    push_front-IsValid t c _ room.valid gone (ground (arith, bound)) (ground (arith, bound))

insert-add :
    (c : Cache) (s : Lru)
    → c.size < half64
    → IsValid s
    → view (Lru.insert c s) ≡ Model.add c (view s)
unfolding Lru.insert Lru.push_front Model.add
insert-add c s small v =
    ap (λ m. let m' : Model = m in record m' { entries = c ∷ m'.entries })
      (remove_cache-make_room c.size s small v)

-- The second half of `update_size`.
write-Refines :
    (i size : ℕ) (it : Cache) (s t : Lru)
    → HasRoom (size - it.size) s t
    → IsValid s
    → it.size < size
    → deref i s.cache_list ≡ some it
    → Refines
        (Lru.with_result false (Lru.write_through i size t))
        (Model.set_size it.key size (view t))
unfolding Lru.write_through Lru.write_size Model.set_size
write-Refines i size it s t room v grows here =
    let split : deref i (t.cache_list ++ room.removed) ≡ some it =
      subst (λ l. deref i l ≡ some it) room.split here in
    let same : deref i t.cache_list ≡ find_value it.key (values t.cache_list) =
      deref-prefix i it t.cache_list room.removed (subst Distinct room.split v.distinct) split in
    elim (Option-cases (deref i t.cache_list)) [
      | inl e ↦ rw (e, sym same ∙ e, Lru.write_through, Model.set_size) tt
      | inr (c, e) ↦
          let own = deref-append i it c t.cache_list room.removed split e in
          rw (e, sym same ∙ e, Lru.write_through, Model.set_size)
            (
              refl,
              write_size-IsValid t i c size room.valid e (
                  omega (
                    arith,
                    ap (λ (a : Cache). a.size) own,
                    grow_bound size it s t i c room v grows e,
                  )),
              λ j. record {
                limit = t.max_size;
                entries =
                    values-overwrite i c (record c { size = size }) t.cache_list room.valid.distinct
                      e refl j;
                callbacks = t.callbacks;
              },
            )
    ]

update_size-Refines :
    (i size : ℕ) (it : Cache) (s : Lru)
    → IsValid s
    → deref i s.cache_list ≡ some it
    → ltb it.size size ≡ true
    → size < half64
    → Refines (Lru.with_result false (Lru.update_size i it size s)) (Model.grow it size (view s))
unfolding Lru.update_size Model.grow
update_size-Refines i size it s v here grows small =
    let lt = ltb→lt it.size size grows in
    rw
      (
        grows,
        Lru.update_size,
        Model.grow,
        sym (remove_cache-make_room (size - it.size) s (omega arith) v),
      )
      (write-Refines i size it s _ (remove_cache-HasRoom (size - it.size) s (omega arith) v) v lt
        here)

pub put-Refines :
    (c : Cache) (s : Lru)
    → c.size < half64
    → IsValid s
    → Refines (Lru.put c s) (Model.put c (view s))
unfolding Lru.put Model.put
put-Refines c s small v = elim (Bool-cases (is_empty c.key)) [
  | inl e ↦ rw (e, Lru.put, Model.put) (refl, v, refl)
  | inr e ↦ elim (Bool-cases (c.size == 0)) [
    | inl z ↦ rw (e, z, Lru.put, Model.put) (refl, v, refl)
    | inr z ↦ elim (Lookup-cases c.key s v) [
      | inl (miss, absent, gone) ↦
          rw (e, z, miss, gone, Lru.put, Model.put)
            (refl, insert-IsValid c s small v absent, insert-add c s small v)
      | inr (i, it, hit, here, found, key) ↦ elim (Bool-cases (ltb it.size c.size)) [
        | inl grows ↦
            rw (e, z, hit, here, found, grows, Lru.put, Model.put)
              (update_size-Refines i c.size it s v here grows small)
        | inr same ↦ rw (e, z, hit, here, found, same, Lru.put, Model.put) (refl, v, refl)
      ]
    ]
  ]
]
