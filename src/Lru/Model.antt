-- ===== src/Lru/Model.antt =====
-- What the LRU cache promises: a sequence of entries, the most recent first, with no addresses, no
-- map and no running sum. Room is made by keeping the longest run of recent entries that fits.
use x_cache_manager.Prelude.{
  ℕ, ◌-◌, Bool, true, false, none, some, List, ◌∷◌, ◌++◌, Str, ltb, ◌==◌, if◌then◌else◌, is_empty,
  length, drop, Outcome, returns, throws, undefined,
}
use x_cache_manager.Container.Nodes.{values}
use x_cache_manager.Container.Values.{find_value, remove_value, replace_value}
use x_cache_manager.Lru.{Cache, cache_entry, Error, max_size_zero, key_null, Lru, no_cache}
use x_cache_manager.Lru.Eviction.{keep_within, report}

pub record Model : Type 0 where
  pub limit : ℕ
  pub entries : List Cache
  pub callbacks : List (List Cache)

abbrev pub view : Lru → Model
view s = record { limit = s.max_size; entries = values s.cache_list; callbacks = s.callbacks }

abbrev pub R : Type 0 → Type 0
R A = Outcome Error Model A

unfoldable pub make_room : ℕ → Model → Model
make_room required m =
    let kept = keep_within m.limit required m.entries in
    record m { entries = kept; callbacks = m.callbacks ++ report (drop (length kept) m.entries) }

unfoldable pub set_size : Str → ℕ → Model → R Bool
set_size k size m = elim (find_value k m.entries) [
  | none ↦ undefined
  | some c ↦
      returns false (record m { entries = replace_value (record c { size = size }) m.entries })
]

-- A larger size for an entry: it must survive its own eviction.
unfoldable pub grow : Cache → ℕ → Model → R Bool
grow it size m = set_size it.key size (make_room (size - it.size) m)

unfoldable pub add : Cache → Model → Model
add c m = let t = make_room c.size m in record t { entries = c ∷ t.entries }

unfoldable pub put : Cache → Model → R Bool
put c m =
    if is_empty c.key
    then throws key_null m
    else if c.size == 0
    then returns false m
    else elim (find_value c.key m.entries) [
      | none ↦ returns true (add c m)
      | some it ↦ if ltb it.size c.size then grow it c.size m else returns false m
    ]

unfoldable pub renew : Str → Model → R Bool
renew k m = elim (find_value k m.entries) [
  | none ↦ returns false m
  | some c ↦ returns true (record m { entries = c ∷ remove_value k m.entries })
]

unfoldable pub resize : ℕ → Model → R (Unit {0})
resize n m =
    if n == 0 then throws max_size_zero m else returns tt (make_room 0 (record m { limit = n }))

unfoldable pub query : Str → Model → R Cache
query k m = elim (find_value k m.entries) [ none ↦ returns no_cache m | some c ↦ returns c m ]

unfoldable pub update : Str → ℕ → Model → R Bool
update k size m = elim (find_value k m.entries) [ none ↦ undefined | some c ↦ returns false m ]
