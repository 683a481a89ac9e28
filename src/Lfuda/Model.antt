-- ===== src/Lfuda/Model.antt =====
-- What the LFU-DA cache promises: entries in the order of `operator<`, with no addresses, no map
-- and no running sum.
use x_cache_manager.Prelude.{
  ℕ, ◌-◌, Bool, true, false, none, some, List, [], ◌∷◌, ◌++◌, Str, ltb, ◌==◌, if◌then◌else◌,
  is_empty, Outcome, returns, throws, undefined, add64,
}
use x_cache_manager.Container.Nodes.{values}
use x_cache_manager.Container.Values.{find_value, remove_value}
use x_cache_manager.Lfuda.{
  Cache, cache_entry, Error, max_size_zero, key_null, Lfuda, no_cache, less, touched,
}
use x_cache_manager.Lfuda.Eviction.{kept, dropped, last_eff, report}

pub record Model : Type 0 where
  pub limit : ℕ
  pub aging : ℕ
  pub entries : List Cache
  pub callbacks : List (List Cache)

abbrev pub view : Lfuda → Model
view s = record {
  limit = s.max_size;
  aging = s.aging;
  entries = values s.cache_bst;
  callbacks = s.callbacks;
}

abbrev pub R : Type 0 → Type 0
R A = Outcome Error Model A

-- Insertion in order.
unfoldable pub place : Cache → List Cache → List Cache
place c [] = c ∷ []
place c (d ∷ l) =
    let rest = place c l in if less c d then c ∷ d ∷ l else if less d c then d ∷ rest else d ∷ l

unfoldable pub make_room : ℕ → Model → Model
make_room required m =
    let gone = dropped m.limit required m.entries in
    record m {
      entries = kept m.limit required m.entries;
      aging = last_eff m.aging gone;
      callbacks = m.callbacks ++ report gone;
    }

unfoldable pub set_size : {A : Type 0} → A → Str → ℕ → Model → R A
set_size a k size m = elim (find_value k m.entries) [
  | none ↦ undefined
  | some c ↦
      returns a (record m { entries = place (record c { size = size }) (remove_value k m.entries) })
]

-- A new size for an entry: it must survive its own eviction.
unfoldable pub change_size : {A : Type 0} → A → Cache → ℕ → Model → R A
change_size a it size m =
    set_size a it.key size (if ltb it.size size then make_room (size - it.size) m else m)

unfoldable pub add : Cache → Model → Model
add c m = record m { entries = place (record c { freq = 1; eff = add64 m.aging 1 }) m.entries }

unfoldable pub put : Cache → Model → R Bool
put c m =
    if is_empty c.key
    then throws key_null m
    else if c.size == 0
    then returns false m
    else elim (find_value c.key m.entries) [
      | none ↦ returns true (add c (make_room c.size m))
      | some it ↦ if ltb it.size c.size then change_size false it c.size m else returns false m
    ]

unfoldable pub renew : Str → ℕ → Model → R Bool
renew k time m = elim (find_value k m.entries) [
  | none ↦ returns false m
  | some c ↦
      returns true
        (record m { entries = place (touched m.aging time c) (remove_value k m.entries) })
]

unfoldable pub update : Str → ℕ → Model → R Bool
update k size m = elim (find_value k m.entries) [
  | none ↦ returns false m
  | some it ↦ if size == it.size then returns true m else change_size true it size m
]

unfoldable pub resize : ℕ → Model → R (Unit {0})
resize n m =
    if n == 0 then throws max_size_zero m else returns tt (make_room 0 (record m { limit = n }))

unfoldable pub query : Str → Model → R Cache
query k m = elim (find_value k m.entries) [ none ↦ returns no_cache m | some c ↦ returns c m ]
