-- ===== src/Examples/Rows.antt =====
-- The LRU cache over SQLite, at concrete rows: runs of src/algo/algo_lru_sqlite.cpp, and its theorems
-- at one state.
use x_cache_manager.Prelude.{
  ℕ, ◌≡◌, refl, arith, Bool, true, some, [], ◌∷◌, str_eq, ◌==◌, returns, throws,
}
use x_cache_manager.Container.Nodes.{total}
use x_cache_manager.Container.Values.{find_value, remove_value, replace_value}
use x_cache_manager.Sqlite.Table.{first, insert_by, order_by}
use x_cache_manager.Sqlite.LruStatements
use x_cache_manager.Sqlite.LruStatements.{Cache, cache_entry, Meta}
use x_cache_manager.Sqlite.Lru
use x_cache_manager.Sqlite.Lru.{Lru, sqlite_error}
use x_cache_manager.Sqlite.Lru.Invariant.{IsValid, Safe}
use x_cache_manager.Sqlite.Lru.Renewal.{Renews, renew-Renews}

program : Unit {0}
unfolding total find_value remove_value replace_value first insert_by order_by str_eq
    LruStatements.sequence_taken LruStatements.sql_insert_lru LruStatements.sql_update_seq_lru
    LruStatements.sql_update_content_lru LruStatements.sql_query_count_lru
    LruStatements.sql_query_single_lru LruStatements.sql_query_old_lru
    LruStatements.sql_query_new_lru LruStatements.sql_query_all_lru
    LruStatements.sql_delete_single_lru LruStatements.sql_delete_old_lru
    LruStatements.sql_update_metalru LruStatements.sql_insert_metalru Lru.construct Lru.over_limit
    Lru.report Lru.notify Lru.shrink Lru.next_sequence Lru.count_up Lru.grow Lru.set_meta
    Lru.statement Lru.meta_statement Lru.insert_lru Lru.insert_meta Lru.update_lru_seq
    Lru.update_lru_content Lru.update_meta Lru.query_lru_single Lru.query_lru_new Lru.query_lru_all
    Lru.query_meta Lru.delete_lru_old Lru.after_delete Lru.evict Lru.report_all Lru.remove_cache
    Lru.write_size Lru.update_size Lru.renew Lru.check_size Lru.add_row Lru.put_new Lru.put_old
    Lru.put Lru.update Lru.resize Lru.query Lru.backup Lru.fit_limit Lru.init
program = tt

-- An engine that fails at the statement of this number.
abbrev fails_at : ℕ → ℕ → Bool
fails_at n m = n == m

abbrev row : ℕ → ℕ → ℕ → Cache
row name size sequence = record {
  key = name ∷ [];
  size = size;
  download_time = 7;
  hash = 1 ∷ [];
  sequence = sequence;
}

abbrev two : Lru
two = record {
  rows = row 1 3 5 ∷ row 2 4 2 ∷ [];
  meta_row = some (record { cache_size = 0; max_size = 10; sequence = 0 });
  meta = record { cache_size = 7; max_size = 10; sequence = 5 };
  clock = 0;
  callbacks = [];
}

two-IsValid : IsValid two
unfolding program
two-IsValid = record {
  sound = record {
    keys = (refl, (refl, tt));
    named = (refl, (refl, tt));
    counted = (omega arith, (omega arith, tt));
    accounted = refl;
    small = omega arith;
    max_small = omega arith;
  };
  within = omega arith;
}

-- The row of the lowest sequence goes, and the new one gets the next sequence.
abbrev after_put : Lru
after_put = record {
  rows = row 1 3 5 ∷ row 3 5 6 ∷ [];
  meta_row = two.meta_row;
  meta = record { cache_size = 8; max_size = 10; sequence = 6 };
  clock = 3;
  callbacks = (row 2 4 2 ∷ []) ∷ [];
}

put_evicts : Lru.put (fails_at 9) (row 3 5 0) two ≡ returns true after_put
unfolding program
put_evicts = refl

-- What was saved is what the next start reads.
restart :
    Lru.init (fails_at 9) (Lru.construct two.rows (some two.meta))
    ≡ returns tt (record two { meta_row = some two.meta; clock = 2 })
unfolding program
restart = refl

-- The second deletion fails: the row that went first is reported to nobody.
lost_report :
    Lru.put (fails_at 2) (row 3 9 0) two
    ≡ throws sqlite_error (record {
      rows = row 1 3 5 ∷ [];
      meta_row = two.meta_row;
      meta = record { cache_size = 3; max_size = 10; sequence = 5 };
      clock = 3;
      callbacks = [];
    })
unfolding program
lost_report = refl

renew-Renews_example :
    Safe
      (fails_at 9)
      (λ flag t. IsValid t × Renews (2 ∷ []) two flag t)
      (Lru.renew (fails_at 9) (2 ∷ []) two)
renew-Renews_example = renew-Renews (fails_at 9) (2 ∷ []) two (omega arith) two-IsValid
