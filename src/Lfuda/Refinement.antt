-- ===== src/Lfuda/Refinement.antt =====
-- Each member function of the LFU-DA cache against the model.
use x_cache_manager.Prelude.{
  ℕ, ◌-◌, ◌+◌, ◌<◌, ◌≡◌, ◌⊎◌, inl, inr, refl, sym, subst, ap, ◌∙◌, arith, true, false, none, some,
  List, [], ◌∷◌, ◌++◌, Str, ltb, ◌==◌, is_empty, Outcome, returns, half64, Option-cases, Bool-cases,
  ltb→lt, ltb→le, add64,
}
use x_cache_manager.Container.Nodes.{
  Node, values, deref, remove, find_key, Distinct, total, find_key-deref, deref-find_key,
  key_of-find_key,
}
use x_cache_manager.Container.Removal.{total-remove}
use x_cache_manager.Container.Index.{find}
use x_cache_manager.Container.Values.{find_value, remove_value, find_value-values, values-remove}
use x_cache_manager.Simulation.{Follows}
use x_cache_manager.Lfuda
use x_cache_manager.Lfuda.{
  Cache, cache_entry, Error, Lfuda, remove_cache, insert_node, relink, link, less, touched, emplace,
}
use x_cache_manager.Lfuda.Invariant.{IsValid, relink-IsValid, emplace-IsValid}
use x_cache_manager.Lfuda.Eviction.{
  HasRoom, lfuda_remove_cache-HasRoom, deref-suffix, deref-suffix_none, find_key-suffix_none,
}
use x_cache_manager.Lfuda.Model
use x_cache_manager.Lfuda.Model.{Model, R, view, make_room, place}

-- The concrete outcome, in a valid state, shows the abstract one.
abbrev pub Refines : {A : Type 0} → Outcome Error Lfuda A → R A → Type 0
Refines = Follows view IsValid

-- A lookup through the map, and what it finds.
abbrev Lookup : Str → Lfuda → Type 0
Lookup k s =
    ((find k s.cache_map ≡ none)
      × (find_key k s.cache_bst ≡ none)
      × (find_value k (values s.cache_bst) ≡ none))
    ⊎ ((i : ℕ) × (c : Cache) × (find k s.cache_map ≡ some i)
        × (deref i s.cache_bst ≡ some c)
        × (find_value k (values s.cache_bst) ≡ some c)
        × (c.key ≡ k))

Lookup-cases : (k : Str) (s : Lfuda) → IsValid s → Lookup k s
Lookup-cases k s v = elim (Option-cases (find_key k s.cache_bst)) [
  | inl e ↦ inl (ground (arith, v.synced k), e, ground (arith, find_value-values k s.cache_bst))
  | inr (n, e) ↦ inr (
    n.addr,
    n.value,
    ground (arith, v.synced k),
    deref-find_key k s.cache_bst n v.distinct e,
    ground (arith, find_value-values k s.cache_bst),
    key_of-find_key k s.cache_bst n e,
  )
]

values-insert :
    (n : Node Cache) (l : List (Node Cache)) → values (insert_node n l) ≡ place n.value (values l)
unfolding insert_node place
values-insert n [] = refl
values-insert n (m ∷ l) = ground (arith, values-insert n l)

view-relink :
    (i size : ℕ) (c d : Cache) (k : Str) (s : Lfuda)
    → IsValid s
    → deref i s.cache_bst ≡ some c
    → c.key ≡ k
    → view (relink i d (record s { cache_size = size }))
      ≡ record (view s) { entries = place d (remove_value k (values s.cache_bst)) }
unfolding relink link
view-relink i size c d k s v here key = λ j. record {
  limit = s.max_size;
  aging = s.aging;
  entries =
      (values-insert (record { addr = i; value = d }) (remove i s.cache_bst)
          ∙ ap (place d) (values-remove i c s.cache_bst v.distinct here)
          ∙ ap (λ q. place d (remove_value q (values s.cache_bst))) key)
        j;
  callbacks = s.callbacks;
}

room_bound :
    (required : ℕ) (s t : Lfuda)
    → HasRoom required s t
    → required < half64
    → s.max_size < half64
    → t.cache_size + required < half64
unfolding total
room_bound required s t room small limit = elim room.ends [
  | inl e ↦ omega (arith, room.valid.accounted, ap (λ l. total (values l)) e)
  | inr fits ↦ omega arith
]

-- `remove_cache` is `make_room`.
pub remove_cache-make_room :
    (required : ℕ) (s : Lfuda)
    → required < half64
    → IsValid s
    → (t : Lfuda) × (remove_cache required s ≡ returns tt t)
      × HasRoom required s t
      × (view t ≡ make_room required (view s))
unfolding make_room
remove_cache-make_room required s small v =
    let (t, out, room, cbs) = lfuda_remove_cache-HasRoom required s small v in
    (
      t,
      out,
      room,
      λ i. record {
        limit = room.max_size i;
        aging = room.aging i;
        entries = room.entries i;
        callbacks = cbs i;
      },
    )

pub renew-Refines :
    (k : Str) (time : ℕ) (s : Lfuda)
    → IsValid s
    → Refines (Lfuda.renew k time s) (Model.renew k time (view s))
unfolding Lfuda.renew Model.renew touched
renew-Refines k time s v = elim (Lookup-cases k s v) [
  | inl (miss, _, gone) ↦ rw (miss, gone, Lfuda.renew, Model.renew) (refl, v, refl)
  | inr (i, c, hit, here, found, key) ↦
      rw (hit, here, found, Lfuda.renew, Model.renew)
        (
          refl,
          relink-IsValid i s.cache_size c (touched s.aging time c) s v here refl refl v.small,
          view-relink i s.cache_size c (touched s.aging time c) k s v here key,
        )
]

pub query-Refines :
    (k : Str) (s : Lfuda) → IsValid s → Refines (Lfuda.query k s) (Model.query k (view s))
unfolding Lfuda.query Model.query
query-Refines k s v = elim (Lookup-cases k s v) [
  | inl (miss, _, gone) ↦ rw (miss, gone, Lfuda.query, Model.query) (refl, v, refl)
  | inr (i, c, hit, here, found, key) ↦
      rw (hit, here, found, Lfuda.query, Model.query) (refl, v, refl)
]

pub resize-Refines :
    (n : ℕ) (s : Lfuda)
    → n < half64
    → IsValid s
    → Refines (Lfuda.resize n s) (Model.resize n (view s))
unfolding Lfuda.resize Model.resize
resize-Refines n s small v = elim (Bool-cases (n == 0)) [
  | inl z ↦ rw (z, Lfuda.resize, Model.resize) (refl, v, refl)
  | inr nz ↦
      let (t, out, room, same) =
        remove_cache-make_room 0 (record s { max_size = n }) (omega arith) (limited s n small v) in
      rw (nz, Lfuda.resize, Model.resize, out) (refl, room.valid, same)
]
  where
    limited : (s : Lfuda) (n : ℕ) → n < half64 → IsValid s → IsValid (record s { max_size = n })
    limited s n small v = record {
      distinct = v.distinct;
      sorted = v.sorted;
      below = v.below;
      synced = v.synced;
      accounted = v.accounted;
      small = v.small;
      max_small = small;
    }

-- The second half of `update_size`.
write-Refines :
    {A : Type 0} (a : A) (i size : ℕ) (k : Str) (t : Lfuda)
    → IsValid t
    → deref i t.cache_bst ≡ find_value k (values t.cache_bst)
    → ((c : Cache)
        → deref i t.cache_bst ≡ some c
        → (c.key ≡ k) × (t.cache_size + size < half64 + c.size))
    → Refines
        (Lfuda.with_result a (Lfuda.write_through i size t))
        (Model.set_size a k size (view t))
unfolding Lfuda.write_through Model.set_size
write-Refines a i size k t v same fits = elim (Option-cases (deref i t.cache_bst)) [
  | inl e ↦ rw (e, sym same ∙ e, Lfuda.write_through, Model.set_size) tt
  | inr (c, e) ↦
      let (key, bound) = fits c e in
      let d : Cache = record c { size = size } in
      let part = total-remove i c t.cache_bst e in
      rw (e, sym same ∙ e, Lfuda.write_through, Model.set_size)
        (
          refl,
          relink-IsValid i _ c d t v e refl (ground (arith, v.accounted, v.small, part))
              (ground (arith, v.accounted, v.small, part)),
          view-relink i _ c d k t v e key,
        )
]

deref-own :
    (i : ℕ) (a b : Cache) (q p : List (Node Cache))
    → Distinct (q ++ p)
    → deref i (q ++ p) ≡ some a
    → deref i p ≡ some b
    → b ≡ a
unfolding deref
deref-own i a b [] p d h e = ground arith
deref-own i a b (n ∷ q) p d h e = ground (arith, deref-own i a b q p d.2, deref-suffix_none i q p)

grown :
    (i size : ℕ) (it : Cache) (s t : Lfuda)
    → HasRoom (size - it.size) s t
    → IsValid s
    → it.size < size
    → deref i s.cache_bst ≡ some it
    → (c : Cache) → deref i t.cache_bst ≡ some c
    → (c.key ≡ it.key) × (t.cache_size + size < half64 + c.size)
unfolding deref
grown i size it s t room v lt here c e =
    let own =
      deref-own i it c room.removed t.cache_bst (subst Distinct room.split v.distinct)
        (subst (λ l. deref i l ≡ some it) room.split here) e in
    (
      ap (λ (x : Cache). x.key) own,
      elim room.ends [
        | inl nil ↦ let gone = sym e ∙ ap (deref i) nil in cc
        | inr fits ↦ omega (arith, v.max_small, ap (λ (x : Cache). x.size) own)
      ],
    )

update_size-Refines :
    {A : Type 0} (a : A) (i size : ℕ) (it : Cache) (s : Lfuda)
    → IsValid s
    → deref i s.cache_bst ≡ some it
    → size < half64
    → Refines
        (Lfuda.with_result a (Lfuda.update_size i it size s))
        (Model.change_size a it size (view s))
unfolding Lfuda.update_size Model.change_size
update_size-Refines a i size it s v here small = elim (Bool-cases (ltb it.size size)) [
  | inl grows ↦
      let lt = ltb→lt it.size size grows in
      let (t, out, room, same) = remove_cache-make_room (size - it.size) s (omega arith) v in
      let survives =
        deref-suffix i it room.removed t.cache_bst (subst Distinct room.split v.distinct)
          (subst (λ l. deref i l ≡ some it) room.split here) in
      rw (grows, Lfuda.update_size, Model.change_size, out, sym same)
        (write-Refines a i size it.key t room.valid survives (grown i size it s t room v lt here))
  | inr shrinks ↦
      rw (shrinks, Lfuda.update_size, Model.change_size)
        (write-Refines a i size it.key s v
          (ground (
            arith,
            here,
            find_key-deref i it s.cache_bst v.distinct here,
            find_value-values it.key s.cache_bst,
          ))
          (λ c e.
            let own : some c ≡ some it = sym e ∙ here in
            (cc, ground (arith, own, v.small, ltb→le it.size size shrinks))))
]

view-emplace :
    (d : Cache) (size : ℕ) (t : Lfuda)
    → view (emplace d (record t { cache_size = size }))
      ≡ record (view t) { entries = place d (values t.cache_bst) }
unfolding emplace link
view-emplace d size t = λ j. record {
  limit = t.max_size;
  aging = t.aging;
  entries = values-insert (record { addr = t.next_addr; value = d }) t.cache_bst j;
  callbacks = t.callbacks;
}

insert-Refines :
    (c : Cache) (s t : Lfuda)
    → HasRoom c.size s t
    → c.size < half64
    → IsValid s
    → find_key c.key s.cache_bst ≡ none
    → IsValid (Lfuda.insert c t) × (view (Lfuda.insert c t) ≡ Model.add c (view t))
unfolding Lfuda.insert Model.add
insert-Refines c s t room small v absent =
    let gone =
      find_key-suffix_none c.key room.removed t.cache_bst
        (subst (λ l. find_key c.key l ≡ none) room.split absent) in
    let bound = room_bound c.size s t room small v.max_small in
    (
      emplace-IsValid (record c { freq = 1; eff = add64 t.aging 1 }) _ t room.valid gone
          (ground (arith, bound)) (ground (arith, bound)),
      view-emplace (record c { freq = 1; eff = add64 t.aging 1 }) _ t,
    )

pub lfuda_put-Refines :
    (c : Cache) (s : Lfuda)
    → c.size < half64
    → IsValid s
    → Refines (Lfuda.put c s) (Model.put c (view s))
unfolding Lfuda.put Model.put
lfuda_put-Refines c s small v = elim (Bool-cases (is_empty c.key)) [
  | inl e ↦ rw (e, Lfuda.put, Model.put) (refl, v, refl)
  | inr e ↦ elim (Bool-cases (c.size == 0)) [
    | inl z ↦ rw (e, z, Lfuda.put, Model.put) (refl, v, refl)
    | inr z ↦ elim (Lookup-cases c.key s v) [
      | inl (miss, absent, gone) ↦
          let (t, out, room, same) = remove_cache-make_room c.size s small v in
          let (valid, shown) = insert-Refines c s t room small v absent in
          rw (e, z, miss, gone, Lfuda.put, Model.put, out, sym same) (refl, valid, shown)
      | inr (i, it, hit, here, found, key) ↦ elim (Bool-cases (ltb it.size c.size)) [
        | inl grows ↦
            rw (e, z, hit, here, found, grows, Lfuda.put, Model.put)
              (update_size-Refines false i c.size it s v here small)
        | inr same ↦ rw (e, z, hit, here, found, same, Lfuda.put, Model.put) (refl, v, refl)
      ]
    ]
  ]
]

pub lfuda_update-Refines :
    (k : Str) (size : ℕ) (s : Lfuda)
    → size < half64
    → IsValid s
    → Refines (Lfuda.update k size s) (Model.update k size (view s))
unfolding Lfuda.update Model.update
lfuda_update-Refines k size s small v = elim (Lookup-cases k s v) [
  | inl (miss, _, gone) ↦ rw (miss, gone, Lfuda.update, Model.update) (refl, v, refl)
  | inr (i, it, hit, here, found, key) ↦ elim (Bool-cases (size == it.size)) [
    | inl same ↦ rw (hit, here, found, same, Lfuda.update, Model.update) (refl, v, refl)
    | inr other ↦
        rw (hit, here, found, other, Lfuda.update, Model.update)
          (update_size-Refines true i size it s v here small)
  ]
]
