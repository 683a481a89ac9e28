-- ===== src/Examples/AgedRows.antt =====
-- The LFU-DA cache over SQLite, at concrete rows: runs of src/algo/algo_lfuda_sqlite.cpp, and its theorems
-- at one state.
use x_cache_manager.Prelude.{ℕ, ◌≡◌, refl, Bool, true, some, [], ◌∷◌, str_eq, ◌==◌, returns, throws}
use x_cache_manager.Container.Nodes.{total}
use x_cache_manager.Container.Values.{find_value, remove_value, replace_value}
use x_cache_manager.Sqlite.Table.{first, insert_by, order_by}
use x_cache_manager.Sqlite.LfudaStatements
use x_cache_manager.Sqlite.LfudaStatements.{Cache, cache_entry, Meta}
use x_cache_manager.Sqlite.Lfuda
use x_cache_manager.Sqlite.Lfuda.{Lfuda, sqlite_error}

program : Unit {0}
unfolding total find_value remove_value replace_value first insert_by order_by str_eq
    LfudaStatements.worse LfudaStatements.sql_insert_lfuda LfudaStatements.sql_update_tfe_lfuda
    LfudaStatements.sql_query_tfe_lfuda LfudaStatements.sql_update_content_lfuda
    LfudaStatements.sql_query_count_lfuda LfudaStatements.sql_query_single_lfuda
    LfudaStatements.sql_query_worst_lfuda LfudaStatements.sql_query_all_lfuda
    LfudaStatements.sql_delete_single_lfuda LfudaStatements.sql_delete_worst_lfuda
    LfudaStatements.sql_update_metalfuda LfudaStatements.sql_insert_metalfuda Lfuda.construct
    Lfuda.over_limit Lfuda.report Lfuda.notify Lfuda.shrink Lfuda.age Lfuda.grow Lfuda.set_meta
    Lfuda.statement Lfuda.meta_statement Lfuda.insert_lru Lfuda.insert_meta Lfuda.update_lfuda_tfe
    Lfuda.query_lfuda_time Lfuda.update_lfuda_content Lfuda.update_meta Lfuda.query_lfuda_single
    Lfuda.query_lfuda_worst Lfuda.query_lfuda_all Lfuda.query_meta Lfuda.delete_lfuda_old
    Lfuda.after_delete Lfuda.evict Lfuda.report_all Lfuda.remove_cache Lfuda.write_size
    Lfuda.update_size Lfuda.touch Lfuda.renew Lfuda.check_size Lfuda.add_row Lfuda.put_new
    Lfuda.put_old Lfuda.put Lfuda.update Lfuda.resize Lfuda.query Lfuda.backup Lfuda.fit_limit
    Lfuda.init
program = tt

-- An engine that fails at the statement of this number.
abbrev fails_at : ℕ → ℕ → Bool
fails_at n m = n == m

abbrev row : ℕ → ℕ → ℕ → ℕ → ℕ → Cache
row name size time freq eff = record {
  key = name ∷ [];
  size = size;
  download_time = 7;
  hash = 1 ∷ [];
  timestamp = time;
  freq = freq;
  eff = eff;
}

abbrev two : Lfuda
two = record {
  rows = row 1 3 50 3 4 ∷ row 2 4 60 1 2 ∷ [];
  meta_row = some (record { cache_size = 0; max_size = 10; global_aging = 0 });
  meta = record { cache_size = 7; max_size = 10; global_aging = 1 };
  clock = 0;
  callbacks = [];
}

-- The worst row goes, and the new one starts above the new age.
abbrev after_put : Lfuda
after_put = record {
  rows = row 1 3 50 3 4 ∷ row 3 5 70 1 3 ∷ [];
  meta_row = two.meta_row;
  meta = record { cache_size = 8; max_size = 10; global_aging = 2 };
  clock = 3;
  callbacks = (row 2 4 60 1 2 ∷ []) ∷ [];
}

put_evicts : Lfuda.put (fails_at 9) (row 3 5 70 0 0) two ≡ returns true after_put
unfolding program
put_evicts = refl

-- What was saved is what the next start reads.
restart :
    Lfuda.init (fails_at 9) (Lfuda.construct two.rows (some two.meta))
    ≡ returns tt (record two { meta_row = some two.meta; clock = 2 })
unfolding program
restart = refl

-- The second deletion fails: the row that went first is reported to nobody.
lost_report :
    Lfuda.put (fails_at 2) (row 3 9 70 0 0) two
    ≡ throws sqlite_error (record {
      rows = row 1 3 50 3 4 ∷ [];
      meta_row = two.meta_row;
      meta = record { cache_size = 3; max_size = 10; global_aging = 2 };
      clock = 3;
      callbacks = [];
    })
unfolding program
lost_report = refl
