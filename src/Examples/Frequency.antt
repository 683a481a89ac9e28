-- ===== src/Examples/Frequency.antt =====
-- The LFU-DA cache kept in memory, at concrete entries: runs of src/algo/algo_lfuda.cpp, and its
-- theorems at one state.
use x_cache_manager.Prelude.{
  ℕ, ◌≡◌, ◌≤◌, refl, arith, true, List, [], ◌∷◌, ◌++◌, str_eq, str_lt, returns, undefined,
}
use x_cache_manager.Container.Nodes.{values, find_key, deref, remove, overwrite, total}
use x_cache_manager.Container.Index.{find, erase, assign}
use x_cache_manager.Container.Values.{find_value}
use x_cache_manager.Simulation.{done, repeat, seen, Stays}
use x_cache_manager.Lfuda
use x_cache_manager.Lfuda.{Cache, Lfuda, less}
use x_cache_manager.Lfuda.Invariant.{IsValid}
use x_cache_manager.Lfuda.Eviction.{lfuda_remove_cache-HasRoom, HasRoom, report, dropped}
use x_cache_manager.Lfuda.Model
use x_cache_manager.Lfuda.Model.{view}
use x_cache_manager.Lfuda.Age.{AllFrom, age_rises}
use x_cache_manager.Lfuda.History.{
  Call, puts, renews, updates, resizes, queries, flag, call, call_model, lfuda_history-model,
}

program : Unit {0}
unfolding find_key deref remove overwrite total find erase assign find_value str_eq str_lt less
    Lfuda.insert_node Lfuda.position Lfuda.link Lfuda.emplace Lfuda.load Lfuda.init Lfuda.drain
    Lfuda.backup Lfuda.drop_worst Lfuda.over_limit Lfuda.evict Lfuda.notify Lfuda.remove_cache
    Lfuda.relink Lfuda.write_through Lfuda.update_size Lfuda.insert Lfuda.put Lfuda.touched
    Lfuda.renew Lfuda.update Lfuda.resize Lfuda.query
program = tt

abbrev file : ℕ → ℕ → ℕ → ℕ → ℕ → Cache
file name size time freq eff = record {
  key = name ∷ [];
  size = size;
  download_time = 7;
  hash = 1 ∷ [];
  timestamp = time;
  freq = freq;
  eff = eff;
}

-- Entry `1`, used twice, and entry `2`, used three times, at the age 1.
abbrev two : Lfuda
two = record {
  max_size = 10;
  cache_size = 7;
  aging = 1;
  cache_bst =
      record { addr = 0; value = file 1 3 50 2 2 }
      ∷ record { addr = 1; value = file 2 4 40 3 4 }
      ∷ [];
  cache_map = (2 ∷ [], 1) ∷ (1 ∷ [], 0) ∷ [];
  next_addr = 2;
  callbacks = [];
}

two-IsValid : IsValid two
unfolding program
two-IsValid = record {
  distinct = (refl, refl, (refl, refl, tt));
  sorted = ((refl, tt), (tt, tt));
  below = (omega arith, (omega arith, tt));
  synced = λ k. ground arith;
  accounted = refl;
  small = omega arith;
  max_small = omega arith;
}

-- The entry of the lowest effective frequency goes, and its frequency is the new age.
abbrev after_put : Lfuda
after_put = record {
  max_size = 10;
  cache_size = 9;
  aging = 2;
  cache_bst =
      record { addr = 2; value = file 3 5 60 1 3 }
      ∷ record { addr = 1; value = file 2 4 40 3 4 }
      ∷ [];
  cache_map = (3 ∷ [], 2) ∷ (2 ∷ [], 1) ∷ [];
  next_addr = 3;
  callbacks = (file 1 3 50 2 2 ∷ []) ∷ [];
}

put_evicts : Lfuda.put (file 3 5 60 0 0) two ≡ returns true after_put
unfolding program
put_evicts = refl

-- An update beyond what eviction leaves evicts the entry itself, and writes to it.
update_dangles : Lfuda.update (1 ∷ []) 9 two ≡ undefined
unfolding program
update_dangles = refl

abbrev calls : List Call
calls =
    renews (1 ∷ []) 70
    ∷ puts (file 3 5 60 0 0)
    ∷ queries (1 ∷ [])
    ∷ updates (3 ∷ []) 2
    ∷ resizes 6
    ∷ puts (file 4 0 0 0 0)
    ∷ []

lfuda_history-model_example :
    (seen view (repeat call calls two) ≡ repeat call_model calls (view two))
    × Stays IsValid (repeat call calls two)
lfuda_history-model_example =
    lfuda_history-model calls two
      (tt, (omega arith, (tt, (omega arith, (omega arith, (omega arith, tt)))))) two-IsValid

lfuda_remove_cache-HasRoom_example :
    (t : Lfuda) × (Lfuda.remove_cache 5 two ≡ returns tt t)
    × HasRoom 5 two t
    × (t.callbacks ≡ two.callbacks ++ report (dropped two.max_size 5 (values two.cache_bst)))
lfuda_remove_cache-HasRoom_example = lfuda_remove_cache-HasRoom 5 two (omega arith) two-IsValid

age_rises_example :
    (two.aging ≤ after_put.aging) × AllFrom after_put.aging (values after_put.cache_bst)
unfolding program
age_rises_example =
    age_rises (puts (file 3 5 60 0 0)) two after_put (done (flag true)) (omega arith) two-IsValid
      (omega arith, (omega arith, tt))
      ((omega arith), (omega arith), ((omega arith), (omega arith), tt)) (omega arith) refl
