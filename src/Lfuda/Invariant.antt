-- ===== src/Lfuda/Invariant.antt =====
-- The invariant of the LFU-DA cache kept in memory: the set is in order, the map and the set agree,
-- and `cache_size` is the sum of the sizes.
use x_cache_manager.Prelude.{
  ℕ, suc, ◌+◌, ◌≡◌, ◌<◌, refl, sym, subst, ap, ◌∙◌, false, Option, none, some, List, [], ◌∷◌, arith,
  Str, str_eq, str_eq_iff, str_eq_refl, half64, is_empty,
}
use x_cache_manager.Container.Nodes.{
  Node, values, deref, remove, find_key, total, Distinct, Below, Below-mono, Below-remove,
  Below-deref, deref-Below, deref-remove_self,
}
use x_cache_manager.Container.Removal.{find_key-remove, Distinct-remove, total-remove}
use x_cache_manager.Container.Index.{Index, find, find-erase, find-assign}
use x_cache_manager.Lfuda.{Cache, cache_entry, Lfuda, link, emplace, relink, drop_worst, position}
use x_cache_manager.Lfuda.Order.{
  Sorted, Sorted-insert, Sorted-remove, position_new, find_key-insert, Distinct-insert,
  Below-insert, total-insert,
}

abbrev pub addr_of : Option (Node Cache) → Option ℕ
addr_of none = none
addr_of (some n) = some n.addr

pub record IsValid (s : Lfuda) : Type 0 where
  pub distinct : Distinct s.cache_bst
  pub sorted : Sorted s.cache_bst
  pub below : Below s.next_addr s.cache_bst
  pub synced : (k : Str) → find k s.cache_map ≡ addr_of (find_key k s.cache_bst)
  pub accounted : s.cache_size ≡ total (values s.cache_bst)
  pub small : s.cache_size < half64
  pub max_small : s.max_size < half64

-- The map is empty exactly when the set is.
empty-agree :
    (m : Index) (l : List (Node Cache))
    → ((k : Str) → find k m ≡ addr_of (find_key k l))
    → is_empty m ≡ is_empty l
unfolding find find_key
empty-agree [] [] h = refl
empty-agree [] (n ∷ l) h = ground (arith, h n.value.key, str_eq_refl n.value.key)
empty-agree ((k, i) ∷ m) [] h = ground (arith, h k, str_eq_refl k)
empty-agree ((k, i) ∷ m) (n ∷ l) h = refl

pub is_empty-cache_map : (s : Lfuda) → IsValid s → is_empty s.cache_map ≡ is_empty s.cache_bst
is_empty-cache_map s v = empty-agree s.cache_map s.cache_bst v.synced

-- Before a node of this key goes in: the rest is in order, and agrees with the map at other keys.
pub record IsOpen (key : Str) (addr size : ℕ) (s : Lfuda) : Type 0 where
  pub distinct : Distinct s.cache_bst
  pub sorted : Sorted s.cache_bst
  pub below : Below s.next_addr s.cache_bst
  pub absent : find_key key s.cache_bst ≡ none
  pub free : deref addr s.cache_bst ≡ none
  pub given : addr < s.next_addr
  pub synced :
      (k : Str) → str_eq key k ≡ false → find k s.cache_map ≡ addr_of (find_key k s.cache_bst)
  pub accounted : s.cache_size ≡ size + total (values s.cache_bst)
  pub small : s.cache_size < half64
  pub max_small : s.max_size < half64

pub link-IsValid :
    (n : Node Cache) (s : Lfuda) → IsOpen n.value.key n.addr n.value.size s → IsValid (link n s)
unfolding link
link-IsValid n s o = record {
  distinct = Distinct-insert n s.cache_bst o.absent o.free o.distinct;
  sorted = Sorted-insert n s.cache_bst o.sorted;
  below = Below-insert s.next_addr n s.cache_bst o.given o.below;
  synced = λ k. ground (
    arith,
    find-assign n.value.key k (position n s.cache_bst) s.cache_map,
    position_new n s.cache_bst o.absent,
    find_key-insert k n s.cache_bst o.absent,
    o.synced k,
  );
  accounted = o.accounted ∙ sym (total-insert n s.cache_bst o.absent);
  small = o.small;
  max_small = o.max_small;
}

pub emplace-IsValid :
    (c : Cache) (size : ℕ) (s : Lfuda)
    → IsValid s
    → find_key c.key s.cache_bst ≡ none
    → size ≡ s.cache_size + c.size
    → size < half64
    → IsValid (emplace c (record s { cache_size = size }))
unfolding emplace
emplace-IsValid c size s v new e small =
    link-IsValid (record { addr = s.next_addr; value = c })
      (record s { cache_size = size; next_addr = suc s.next_addr })
      (record {
        distinct = v.distinct;
        sorted = v.sorted;
        below = Below-mono s.next_addr _ s.cache_bst (omega arith) v.below;
        absent = new;
        free = deref-Below s.next_addr s.cache_bst v.below;
        given = omega arith;
        synced = λ k h. v.synced k;
        accounted = omega (arith, v.accounted);
        small = small;
        max_small = v.max_small;
      })

pub relink-IsValid :
    (i size : ℕ) (c d : Cache) (s : Lfuda)
    → IsValid s
    → deref i s.cache_bst ≡ some c
    → d.key ≡ c.key
    → size + c.size ≡ s.cache_size + d.size
    → size < half64
    → IsValid (relink i d (record s { cache_size = size }))
unfolding relink
relink-IsValid i size c d s v here key sum small =
    let hidden = find_key-remove i c d.key s.cache_bst v.distinct here in
    link-IsValid (record { addr = i; value = d })
      (record s { cache_size = size; cache_bst = remove i s.cache_bst })
      (record {
        distinct = Distinct-remove i s.cache_bst v.distinct;
        sorted = Sorted-remove i s.cache_bst v.sorted;
        below = Below-remove s.next_addr i s.cache_bst v.below;
        absent = ground (arith, hidden, str_eq_iff c.key d.key);
        free = deref-remove_self i s.cache_bst v.distinct;
        given = Below-deref s.next_addr i c s.cache_bst v.below here;
        synced = λ k other.
            ground (arith, v.synced k, other, find_key-remove i c k s.cache_bst v.distinct here);
        accounted = omega (arith, v.accounted, total-remove i c s.cache_bst here);
        small = small;
        max_small = v.max_small;
      })

pub drop_worst-IsValid :
    (n : Node Cache) (rest : List (Node Cache)) (s : Lfuda)
    → IsValid s
    → s.cache_bst ≡ n ∷ rest
    → IsValid (drop_worst n rest s)
unfolding drop_worst find_key total
drop_worst-IsValid n rest s v e =
    let d = subst Distinct e v.distinct in
    let sum = ap (λ l. total (values l)) e in
    record {
      distinct = d.2;
      sorted = (subst Sorted e v.sorted).1;
      below = (subst (Below s.next_addr) e v.below).1;
      synced = λ k. ground (
        arith,
        v.synced k,
        ap (find_key k) e,
        find-erase n.value.key k s.cache_map,
        str_eq_iff n.value.key k,
        d.0,
      );
      accounted = ground (arith, v.accounted, v.small, sum);
      small = ground (arith, v.accounted, v.small, sum);
      max_small = v.max_small;
    }

pub callbacks-IsValid :
    (s : Lfuda) (cbs : List (List Cache)) → IsValid s → IsValid (record s { callbacks = cbs })
callbacks-IsValid s cbs v = record {
  distinct = v.distinct;
  sorted = v.sorted;
  below = v.below;
  synced = v.synced;
  accounted = v.accounted;
  small = v.small;
  max_small = v.max_small;
}
