-- ===== src/Lru/Invariant.antt =====
-- The invariant of the LRU cache kept in memory: the map and the list agree, and `cache_size` is
-- the sum of the sizes.
use x_cache_manager.Prelude.{
  ℕ, ◌+◌, ◌≡◌, ◌<◌, refl, Option, none, some, List, ◌∷◌, str_eq_refl, arith, Str, str_eq_iff, last?,
  half64,
}
use x_cache_manager.Container.Nodes.{
  remove, Below-deref, deref-remove_self, Node, values, deref, find_key, total, Distinct, Below,
  Below-mono, Below-remove, Below-overwrite, deref-Below, find_key-deref,
}
use x_cache_manager.Container.Removal.{
  find_key-remove, Distinct-remove, total-remove, deref-last, drop_last-remove, find_key-overwrite,
  Distinct-overwrite, total-overwrite,
}
use x_cache_manager.Container.Index.{find, find-erase, find-assign}
use x_cache_manager.Lru.{Cache, cache_entry, Lru, push_front, drop_oldest, write_size}

abbrev pub addr_of : Option (Node Cache) → Option ℕ
addr_of none = none
addr_of (some n) = some n.addr

pub record IsValid (s : Lru) : Type 0 where
  pub distinct : Distinct s.cache_list
  pub below : Below s.next_addr s.cache_list
  pub synced : (k : Str) → find k s.cache_map ≡ addr_of (find_key k s.cache_list)
  pub accounted : s.cache_size ≡ total (values s.cache_list)
  pub small : s.cache_size < half64
  pub max_small : s.max_size < half64

pub drop_oldest-IsValid :
    (s : Lru) (n : Node Cache)
    → IsValid s
    → last? s.cache_list ≡ some n
    → IsValid (drop_oldest n.value s)
unfolding drop_oldest
drop_oldest-IsValid s n v e =
    let here = deref-last s.cache_list n v.distinct e in
    let gone = drop_last-remove s.cache_list n v.distinct e in
    let sum = total-remove n.addr n.value s.cache_list here in
    record {
      distinct = rw gone (Distinct-remove n.addr s.cache_list v.distinct);
      below = rw gone (Below-remove s.next_addr n.addr s.cache_list v.below);
      synced = λ k. rw gone (
          ground (
            arith,
            find-erase n.value.key k s.cache_map,
            find_key-remove n.addr n.value k s.cache_list v.distinct here,
            v.synced k,
          ));
      accounted = rw gone (ground (arith, sum, v.accounted, v.small));
      small = ground (arith, sum, v.accounted, v.small);
      max_small = v.max_small;
    }

-- A new entry, whose size `cache_size` has already counted.
pub push_front-IsValid :
    (s : Lru) (c : Cache) (size : ℕ)
    → IsValid s
    → find_key c.key s.cache_list ≡ none
    → size ≡ s.cache_size + c.size
    → size < half64
    → IsValid (push_front c (record s { cache_size = size }))
unfolding push_front total find_key
push_front-IsValid s c size v new e small = record {
  distinct = (new, deref-Below s.next_addr s.cache_list v.below, v.distinct);
  below = (omega arith, Below-mono s.next_addr _ s.cache_list (omega arith) v.below);
  synced = λ k. ground (arith, find-assign c.key k s.next_addr s.cache_map, v.synced k);
  accounted = omega (arith, v.accounted);
  small = small;
  max_small = v.max_small;
}

pub write_size-IsValid :
    (s : Lru) (i : ℕ) (c : Cache) (size : ℕ)
    → IsValid s
    → deref i s.cache_list ≡ some c
    → s.cache_size + size < half64 + c.size
    → IsValid (write_size i c size s)
unfolding write_size
write_size-IsValid s i c size v here small =
    let c' : Cache = record c { size = size } in
    let sum = total-overwrite i c c' s.cache_list here in
    let part = total-remove i c s.cache_list here in
    let found = find_key-deref i c s.cache_list v.distinct here in
    record {
      distinct = Distinct-overwrite i c c' s.cache_list v.distinct here refl;
      below = Below-overwrite s.next_addr i c' s.cache_list v.below;
      synced = λ k. ground (
        arith,
        v.synced k,
        found,
        str_eq_iff c.key k,
        find_key-overwrite i c c' k s.cache_list v.distinct here refl,
      );
      accounted = ground (arith, sum, part, v.accounted, v.small);
      small = ground (arith, part, v.accounted, v.small);
      max_small = v.max_small;
    }

-- The invariant does not read the record of the callbacks.
pub callbacks-IsValid :
    (s : Lru) (cbs : List (List Cache)) → IsValid s → IsValid (record s { callbacks = cbs })
callbacks-IsValid s cbs v = record {
  distinct = v.distinct;
  below = v.below;
  synced = v.synced;
  accounted = v.accounted;
  small = v.small;
  max_small = v.max_small;
}

-- Splicing an entry to the front keeps its address.
pub splice-IsValid :
    (s : Lru) (i : ℕ) (c : Cache)
    → IsValid s
    → deref i s.cache_list ≡ some c
    → IsValid (record s { cache_list = record { addr = i; value = c } ∷ remove i s.cache_list })
unfolding find_key total
splice-IsValid s i c v here =
    let found = find_key-deref i c s.cache_list v.distinct here in
    let hidden = find_key-remove i c c.key s.cache_list v.distinct here in
    record {
      distinct = (
        ground (arith, hidden, str_eq_refl c.key),
        deref-remove_self i s.cache_list v.distinct,
        Distinct-remove i s.cache_list v.distinct,
      );
      below = (
        Below-deref s.next_addr i c s.cache_list v.below here,
        Below-remove s.next_addr i s.cache_list v.below,
      );
      synced = λ k. ground (
        arith,
        v.synced k,
        found,
        str_eq_iff c.key k,
        find_key-remove i c k s.cache_list v.distinct here,
      );
      accounted = omega (arith, v.accounted, total-remove i c s.cache_list here);
      small = v.small;
      max_small = v.max_small;
    }

pub max_size-IsValid :
    (s : Lru) (n : ℕ) → n < half64 → IsValid s → IsValid (record s { max_size = n })
max_size-IsValid s n small v = record {
  distinct = v.distinct;
  below = v.below;
  synced = v.synced;
  accounted = v.accounted;
  small = v.small;
  max_small = small;
}
