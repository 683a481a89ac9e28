-- ===== src/Lru.antt =====
-- The LRU cache kept in memory (src/algo/algo_lru.h and algo_lru.cpp). A member function maps the
-- object to an outcome. `callbacks` records the vectors that `remove_callback` was called with;
-- what is printed to the error stream is left out.
pub mod Invariant
pub mod Eviction
pub mod Model
pub mod Refinement
pub mod History
use x_cache_manager.Prelude.{
  ℕ, suc, zero, ◌+◌, ◌-◌, ◌%◌, ◌^◌, Bool, true, false, ◌&&◌, not, Option, none, some, List, [], ◌∷◌,
  ◌++◌, Str, ltb, ◌==◌, if◌then◌else◌, is_empty, length, last?, drop_last, add64, sub64, Outcome,
  Exec, returns, throws, undefined,
}
use x_cache_manager.Container.Nodes.{Entry, Node, deref, remove, overwrite}
use x_cache_manager.Container.Index.{Index, find, erase, assign}

pub record Cache : Type 0 where
  pub key : Str
  pub size : ℕ
  pub download_time : ℕ
  pub hash : List ℕ

instance abbrev pub cache_entry : Entry Cache
cache_entry = record { key = λ c. c.key; size = λ c. c.size }

pub data Error : Type 0 where
  max_size_zero key_null : Error

-- The head of `cache_list` is its front, the most recent entry.
pub record Lru : Type 0 where
  pub max_size : ℕ
  pub cache_size : ℕ
  pub cache_list : List (Node Cache)
  pub cache_map : Index
  pub next_addr : ℕ
  pub callbacks : List (List Cache)

abbrev pub M : Type 0 → Type 0
M A = Exec Error Lru A

-- What the constructor initialises.
abbrev pub empty : ℕ → Lru
empty size = record {
  max_size = size;
  cache_size = 0;
  cache_list = [];
  cache_map = [];
  next_addr = 0;
  callbacks = [];
}

unfoldable pub construct : ℕ → Outcome Error (Unit {0}) Lru
construct size = if size == 0 then throws max_size_zero tt else returns (empty size) tt

-- `push_front(cache); cache_map[cache.key] = begin()`.
unfoldable pub push_front : Cache → Lru → Lru
push_front c s = record s {
  cache_list = record { addr = s.next_addr; value = c } ∷ s.cache_list;
  cache_map = assign c.key s.next_addr s.cache_map;
  next_addr = suc s.next_addr;
}

-- The loop of `init`, which takes the vector from its back.
unfoldable pub load : List Cache → Lru → Lru
load [] s = s
load (c ∷ caches) s =
    let t = push_front c (load caches s) in record t { cache_size = add64 t.cache_size c.size }

unfoldable pub init : List Cache → M (Unit {0})
init caches s = returns tt (load caches s)

-- The loop of `backup`: the vector grows by the front of the list.
unfoldable pub drain : List Cache → List (Node Cache) → List Cache
drain caches [] = caches
drain caches (n ∷ l) = drain (caches ++ n.value ∷ []) l

unfoldable pub backup : M (List Cache)
backup s =
    returns (drain [] s.cache_list) (record s { cache_size = 0; cache_list = []; cache_map = [] })

-- One round of the loop of `remove_cache`, at the last entry.
unfoldable pub drop_oldest : Cache → Lru → Lru
drop_oldest c s = record s {
  cache_map = erase c.key s.cache_map;
  cache_size = sub64 s.cache_size c.size;
  cache_list = drop_last s.cache_list;
}

-- `cache_size + required > max_size`.
unfoldable pub over_limit : ℕ → Lru → Bool
over_limit required s = ltb s.max_size (add64 s.cache_size required)

-- The loop of `remove_cache`; each round takes an entry off the list.
unfoldable pub evict : ℕ → ℕ → List Cache → Lru → Lru × List Cache
evict zero required removed s = (s, removed)
evict (suc fuel) required removed s = elim (last? s.cache_list) [
  | none ↦ (s, removed)
  | some n ↦ elim (over_limit required s) [
    | true ↦ evict fuel required (removed ++ n.value ∷ []) (drop_oldest n.value s)
    | false ↦ (s, removed)
  ]
]

-- `if(removed.size())remove_callback(removed)`.
unfoldable pub notify : List Cache → Lru → Lru
notify removed s =
    if is_empty removed then s else record s { callbacks = s.callbacks ++ removed ∷ [] }

unfoldable pub remove_cache : ℕ → Lru → Lru
remove_cache required s =
    let (t, removed) = evict (length s.cache_list) required [] s in notify removed t

-- The assignments of `update_size`, where the iterator does not dangle.
unfoldable pub write_size : ℕ → Cache → ℕ → Lru → Lru
write_size i c size s = record s {
  cache_size = add64 (sub64 s.cache_size c.size) size;
  cache_list = overwrite i (record c { size = size }) s.cache_list;
}

-- After `remove_cache` the iterator may dangle.
unfoldable pub write_through : ℕ → ℕ → M (Unit {0})
write_through i size s = elim (deref i s.cache_list) [
  | none ↦ undefined
  | some c ↦ returns tt (write_size i c size s)
]

unfoldable pub update_size : ℕ → Cache → ℕ → M (Unit {0})
update_size i it size s =
    write_through i size (if ltb it.size size then remove_cache (size - it.size) s else s)

abbrev pub with_result : {A B : Type 0} → B → Outcome Error Lru A → Outcome Error Lru B
with_result b (returns a s) = returns b s
with_result b (throws e s) = throws e s
with_result b undefined = undefined

unfoldable pub insert : Cache → Lru → Lru
insert c s =
    let t = remove_cache c.size s in
    push_front c (record t { cache_size = add64 t.cache_size c.size })

unfoldable pub put : Cache → M Bool
put c s =
    if is_empty c.key
    then throws key_null s
    else if c.size == 0
    then returns false s
    else elim (find c.key s.cache_map) [
      | none ↦ returns true (insert c s)
      | some i ↦ elim (deref i s.cache_list) [
        | none ↦ undefined
        | some it ↦
            if ltb it.size c.size
            then with_result false (update_size i it c.size s)
            else returns false s
      ]
    ]

unfoldable pub renew : Str → M Bool
renew key s = elim (find key s.cache_map) [
  | none ↦ returns false s
  | some i ↦ elim (deref i s.cache_list) [
    | none ↦ undefined
    | some c ↦
        returns true
          (record s { cache_list = record { addr = i; value = c } ∷ remove i s.cache_list })
  ]
]

-- The test is the wrong way round: where the key is absent, `it->second` reads through `end()`.
unfoldable pub update : Str → ℕ → M Bool
update key size s = elim (find key s.cache_map) [ none ↦ undefined | some i ↦ returns false s ]

unfoldable pub resize : ℕ → M (Unit {0})
resize new_size s =
    if new_size == 0
    then throws max_size_zero s
    else returns tt (remove_cache 0 (record s { max_size = new_size }))

abbrev pub no_cache : Cache
no_cache = record { key = []; size = 0; download_time = 0; hash = [] }

unfoldable pub query : Str → M Cache
query key s = elim (find key s.cache_map) [
  | none ↦ returns no_cache s
  | some i ↦ elim (deref i s.cache_list) [ none ↦ undefined | some c ↦ returns c s ]
]
