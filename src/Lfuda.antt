-- ===== src/Lfuda.antt =====
-- The LFU-DA cache kept in memory (src/algo/algo_lfuda.h and algo_lfuda.cpp). A member function
-- maps the object to an outcome. `callbacks` records the vectors that `remove_callback` was called
-- with; what is printed to the error stream is left out.
pub mod Order
pub mod Invariant
pub mod Eviction
pub mod Model
pub mod Refinement
pub mod History
pub mod Age
use x_cache_manager.Prelude.{
  ℕ, suc, zero, ◌+◌, ◌-◌, ◌%◌, ◌^◌, ◌≡◌, refl, sym, Bool, true, false, Option, none, some, List, [],
  ◌∷◌, ◌++◌, Str, str_lt, ltb, ◌==◌, if◌then◌else◌, is_empty, length, add64, sub64, Outcome, Exec,
  returns, throws, undefined,
}
use x_cache_manager.Container.Nodes.{Entry, Node, deref, remove}
use x_cache_manager.Container.Index.{Index, find, erase, assign}

pub record Cache : Type 0 where
  pub key : Str
  pub size : ℕ
  pub download_time : ℕ
  pub hash : List ℕ
  pub timestamp : ℕ
  pub freq : ℕ
  pub eff : ℕ

instance abbrev pub cache_entry : Entry Cache
cache_entry = record { key = λ c. c.key; size = λ c. c.size }

-- `operator<`.
unfoldable pub less : Cache → Cache → Bool
less a b =
    if a.eff == b.eff
    then if a.timestamp == b.timestamp
      then if a.size == b.size then str_lt a.key b.key else ltb a.size b.size
      else ltb a.timestamp b.timestamp
    else ltb a.eff b.eff

pub data Error : Type 0 where
  max_size_zero key_null : Error

-- `cache_bst` in the order of the set; its head is `begin()`.
pub record Lfuda : Type 0 where
  pub max_size : ℕ
  pub cache_size : ℕ
  pub aging : ℕ
  pub cache_bst : List (Node Cache)
  pub cache_map : Index
  pub next_addr : ℕ
  pub callbacks : List (List Cache)

abbrev pub M : Type 0 → Type 0
M A = Exec Error Lfuda A

-- What the constructor initialises.
abbrev pub empty : ℕ → Lfuda
empty size = record {
  max_size = size;
  cache_size = 0;
  aging = 0;
  cache_bst = [];
  cache_map = [];
  next_addr = 0;
  callbacks = [];
}

unfoldable pub construct : ℕ → Outcome Error (Unit {0}) Lfuda
construct size = if size == 0 then throws max_size_zero tt else returns (empty size) tt

-- `std::set::insert` of a node: an equivalent element keeps it out.
unfoldable pub insert_node : Node Cache → List (Node Cache) → List (Node Cache)
insert_node n [] = n ∷ []
insert_node n (m ∷ l) =
    let rest = insert_node n l in
    if less n.value m.value then n ∷ m ∷ l else if less m.value n.value then m ∷ rest else m ∷ l

-- The position that an insertion returns: the node, or the equivalent element that is there.
unfoldable pub position : Node Cache → List (Node Cache) → ℕ
position n [] = n.addr
position n (m ∷ l) =
    let rest = position n l in
    if less n.value m.value then n.addr else if less m.value n.value then rest else m.addr

-- `cache_map[n.key] = cache_bst.insert(n)`.
unfoldable pub link : Node Cache → Lfuda → Lfuda
link n s = record s {
  cache_bst = insert_node n s.cache_bst;
  cache_map = assign n.value.key (position n s.cache_bst) s.cache_map;
}

-- `cache_map[c.key] = cache_bst.emplace(c).first`.
unfoldable pub emplace : Cache → Lfuda → Lfuda
emplace c s =
    link (record { addr = s.next_addr; value = c }) (record s { next_addr = suc s.next_addr })

-- The loop of `init`, which takes the vector from its back.
unfoldable pub load : List Cache → Lfuda → Lfuda
load [] s = s
load (c ∷ caches) s =
    let t = emplace c (load caches s) in record t { cache_size = add64 t.cache_size c.size }

unfoldable pub init : List Cache → ℕ → M (Unit {0})
init caches age s = returns tt (record (load caches s) { aging = age })

-- The loop of `backup`: the vector grows by `begin()`.
unfoldable pub drain : List Cache → List (Node Cache) → List Cache
drain caches [] = caches
drain caches (n ∷ l) = drain (caches ++ n.value ∷ []) l

unfoldable pub backup : M (List Cache × ℕ)
backup s =
    returns (drain [] s.cache_bst, s.aging)
      (record s { cache_size = 0; cache_bst = []; cache_map = [] })

-- One round of the loop of `remove_cache`, at `begin()`.
unfoldable pub drop_worst : Node Cache → List (Node Cache) → Lfuda → Lfuda
drop_worst n rest s = record s {
  aging = n.value.eff;
  cache_size = sub64 s.cache_size n.value.size;
  cache_map = erase n.value.key s.cache_map;
  cache_bst = rest;
}

-- `cache_map.size() && cache_size + required > max_size`.
unfoldable pub over_limit : ℕ → Lfuda → Bool
over_limit required s =
    if is_empty s.cache_map then false else ltb s.max_size (add64 s.cache_size required)

-- The loop of `remove_cache`, along the set; each round takes `begin()` off. `begin()` of an empty
-- set has no element to read.
unfoldable pub evict : ℕ → List Cache → List (Node Cache) → M (List Cache)
evict required removed [] s = elim (over_limit required s) [
  | true ↦ undefined
  | false ↦ returns removed s
]
evict required removed (n ∷ rest) s = elim (over_limit required s) [
  | true ↦ evict required (removed ++ n.value ∷ []) rest (drop_worst n rest s)
  | false ↦ returns removed s
]

-- `if(removed.size())remove_callback(removed)`.
unfoldable pub notify : List Cache → Lfuda → Lfuda
notify removed s =
    if is_empty removed then s else record s { callbacks = s.callbacks ++ removed ∷ [] }

abbrev pub finish :
    {A : Type 0} → (A → Lfuda → Lfuda) → Outcome Error Lfuda A → Outcome Error Lfuda (Unit {0})
finish f (returns a s) = returns tt (f a s)
finish f (throws e s) = throws e s
finish f undefined = undefined

unfoldable pub remove_cache : ℕ → M (Unit {0})
remove_cache required s = finish notify (evict required [] s.cache_bst s)

abbrev pub and_then :
    {A B : Type 0} → Outcome Error Lfuda A → (Lfuda → Outcome Error Lfuda B) → Outcome Error Lfuda B
and_then (returns a s) f = f s
and_then (throws e s) f = throws e s
and_then undefined f = undefined

-- `extract(it)`, a change of the node, its insertion again and the assignment to the map.
unfoldable pub relink : ℕ → Cache → Lfuda → Lfuda
relink i c s = link (record { addr = i; value = c }) (record s { cache_bst = remove i s.cache_bst })

-- The assignments of `update_size`, where the iterator does not dangle.
unfoldable pub write_through : ℕ → ℕ → M (Unit {0})
write_through i size s = elim (deref i s.cache_bst) [
  | none ↦ undefined
  | some c ↦ returns tt (
      relink i (record c { size = size })
        (record s { cache_size = add64 (sub64 s.cache_size c.size) size }))
]

-- After `remove_cache` the iterator may dangle.
unfoldable pub update_size : ℕ → Cache → ℕ → M (Unit {0})
update_size i it size s =
    and_then (if ltb it.size size then remove_cache (size - it.size) s else returns tt s)
      (write_through i size)

abbrev pub with_result : {A B : Type 0} → B → Outcome Error Lfuda A → Outcome Error Lfuda B
with_result b (returns a s) = returns b s
with_result b (throws e s) = throws e s
with_result b undefined = undefined

-- The new entry: its first use, under the present age.
unfoldable pub insert : Cache → Lfuda → Lfuda
insert c s =
    emplace (record c { freq = 1; eff = add64 s.aging 1 })
      (record s { cache_size = add64 s.cache_size c.size })

unfoldable pub put : Cache → M Bool
put c s =
    if is_empty c.key
    then throws key_null s
    else if c.size == 0
    then returns false s
    else elim (find c.key s.cache_map) [
      | none ↦ and_then (remove_cache c.size s) (λ t. returns true (insert c t))
      | some i ↦ elim (deref i s.cache_bst) [
        | none ↦ undefined
        | some it ↦
            if ltb it.size c.size
            then with_result false (update_size i it c.size s)
            else returns false s
      ]
    ]

-- `eff = ++freq + aging`, and the new time.
unfoldable pub touched : ℕ → ℕ → Cache → Cache
touched aging timestamp c = record c {
  timestamp = timestamp;
  freq = add64 c.freq 1;
  eff = add64 (add64 c.freq 1) aging;
}

unfoldable pub renew : Str → ℕ → M Bool
renew key timestamp s = elim (find key s.cache_map) [
  | none ↦ returns false s
  | some i ↦ elim (deref i s.cache_bst) [
    | none ↦ undefined
    | some c ↦ returns true (relink i (touched s.aging timestamp c) s)
  ]
]

unfoldable pub update : Str → ℕ → M Bool
update key size s = elim (find key s.cache_map) [
  | none ↦ returns false s
  | some i ↦ elim (deref i s.cache_bst) [
    | none ↦ undefined
    | some it ↦
        if size == it.size then returns true s else with_result true (update_size i it size s)
  ]
]

unfoldable pub resize : ℕ → M (Unit {0})
resize new_size s =
    if new_size == 0
    then throws max_size_zero s
    else remove_cache 0 (record s { max_size = new_size })

abbrev pub no_cache : Cache
no_cache = record {
  key = [];
  size = 0;
  download_time = 0;
  hash = [];
  timestamp = 0;
  freq = 0;
  eff = 0;
}

unfoldable pub query : Str → M Cache
query key s = elim (find key s.cache_map) [
  | none ↦ returns no_cache s
  | some i ↦ elim (deref i s.cache_bst) [ none ↦ undefined | some c ↦ returns c s ]
]
