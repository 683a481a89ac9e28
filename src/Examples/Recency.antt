-- ===== src/Examples/Recency.antt =====
-- The LRU cache kept in memory, at concrete entries: runs of src/algo/algo_lru.cpp, and its theorems
-- at one state.
use x_cache_manager.Prelude.{
  ℕ, last?, drop_last, ◌≡◌, ◌⊎◌, refl, arith, true, some, List, [], ◌∷◌, ◌++◌, str_eq, str_lt,
  returns, throws, undefined, ◌>>=◌,
}
use x_cache_manager.Container.Nodes.{values, find_key, deref, remove, overwrite, total}
use x_cache_manager.Container.Index.{find, erase, assign}
use x_cache_manager.Container.Values.{find_value}
use x_cache_manager.Simulation.{repeat, seen, Stays}
use x_cache_manager.Lru
use x_cache_manager.Lru.{Cache, cache_entry, Lru}
use x_cache_manager.Lru.Invariant.{IsValid}
use x_cache_manager.Lru.Eviction.{remove_cache-HasRoom, HasRoom}
use x_cache_manager.Lru.Model
use x_cache_manager.Lru.Model.{view}
use x_cache_manager.Lru.History.{
  Call, puts, renews, updates, resizes, queries, call, call_model, history-model, backup-init,
  result, construct-init,
}

program : Unit {0}
unfolding last? drop_last find_key deref remove overwrite total find erase assign find_value str_eq
    str_lt Lru.construct Lru.push_front Lru.load Lru.init Lru.drain Lru.backup Lru.drop_oldest
    Lru.over_limit Lru.evict Lru.notify Lru.remove_cache Lru.write_size Lru.write_through
    Lru.update_size Lru.insert Lru.put Lru.renew Lru.update Lru.resize Lru.query
program = tt

abbrev file : ℕ → ℕ → Cache
file name size = record { key = name ∷ []; size = size; download_time = 7; hash = 1 ∷ [] }

-- Entries `2` (the most recent) and `1` under the limit 10.
abbrev two : Lru
two = record {
  max_size = 10;
  cache_size = 7;
  cache_list = record { addr = 1; value = file 2 4 } ∷ record { addr = 0; value = file 1 3 } ∷ [];
  cache_map = (2 ∷ [], 1) ∷ (1 ∷ [], 0) ∷ [];
  next_addr = 2;
  callbacks = [];
}

two-IsValid : IsValid two
unfolding program
two-IsValid = record {
  distinct = (refl, refl, (refl, refl, tt));
  below = (omega arith, (omega arith, tt));
  synced = λ k. ground arith;
  accounted = refl;
  small = omega arith;
  max_small = omega arith;
}

-- A new file of 5 bytes takes the place of the oldest one.
put_evicts :
    Lru.put (file 3 5) two
    ≡ returns true (record {
      max_size = 10;
      cache_size = 9;
      cache_list =
          record { addr = 2; value = file 3 5 } ∷ record { addr = 1; value = file 2 4 } ∷ [];
      cache_map = (3 ∷ [], 2) ∷ (2 ∷ [], 1) ∷ [];
      next_addr = 3;
      callbacks = (file 1 3 ∷ []) ∷ [];
    })
unfolding program
put_evicts = refl

-- An entry that grows beyond what eviction leaves is evicted itself, and then written through.
put_dangles : Lru.put (file 1 9) two ≡ undefined
unfolding program
put_dangles = refl

abbrev limit : ℕ
limit = 10

abbrev calls : List Call
calls =
    renews (1 ∷ [])
    ∷ puts (file 3 5)
    ∷ queries (1 ∷ [])
    ∷ updates (3 ∷ []) 6
    ∷ resizes 6
    ∷ puts (file 4 0)
    ∷ []

history-model_example :
    (seen view (repeat call calls two) ≡ repeat call_model calls (view two))
    × Stays IsValid (repeat call calls two)
history-model_example =
    history-model calls two (tt, (omega arith, (tt, (tt, (omega arith, (omega arith, tt))))))
      two-IsValid

remove_cache-HasRoom_example : HasRoom 5 two (Lru.remove_cache 5 two)
remove_cache-HasRoom_example = remove_cache-HasRoom 5 two (omega arith) two-IsValid

backup-init_example :
    result ((Lru.init (file 5 1 ∷ file 6 2 ∷ []) >>= λ _. Lru.backup) two)
    ≡ some ((file 5 1 ∷ file 6 2 ∷ []) ++ values two.cache_list)
backup-init_example = backup-init (file 5 1 ∷ file 6 2 ∷ []) two

construct-init_example :
    ((limit ≡ 0) × (Lru.construct limit ≡ throws Lru.max_size_zero tt))
    ⊎ ((Lru.construct limit ≡ returns (Lru.empty limit) tt)
        × IsValid (Lru.load (file 2 4 ∷ file 1 3 ∷ []) (Lru.empty limit))
        × (view (Lru.load (file 2 4 ∷ file 1 3 ∷ []) (Lru.empty limit))
            ≡ record { limit = limit; entries = file 2 4 ∷ file 1 3 ∷ []; callbacks = [] }))
unfolding program
construct-init_example =
    construct-init limit (file 2 4 ∷ file 1 3 ∷ []) (omega arith) (refl, (refl, tt)) (omega arith)
