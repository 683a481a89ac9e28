-- ===== src/Examples/Purges.antt =====
-- A run of the purger of src/utils/purger.cpp, and its theorem at that run.
use x_cache_manager.Prelude.{false, ◌≡◌, refl, true, [], ◌∷◌, str_eq, last?, drop_last}
use x_cache_manager.Purger
use x_cache_manager.Purger.{
  Purger, Step, adds, takes, finishes, Run, start, next, construct, add, take_task, finish,
}

program : Unit {0}
unfolding str_eq last? drop_last Purger.without_slash construct Purger.with_slash Purger.add_path
    add Purger.has_idle Purger.take_from take_task Purger.fail Purger.retry Purger.is_purged finish
program = tt

-- A server "h/", a queue of 4, 2 workers, 3 tries.
abbrev fresh : Purger
fresh = record {
  server_name = 104 ∷ [];
  queue_max = 4;
  try_max = 3;
  purge_queue = [];
  in_flight = [];
  stop_signal = false;
  running_worker = 2;
  accepted = 0;
  failed = [];
  succeeded = 0;
}

abbrev added : Purger
added = record fresh { purge_queue = (47 ∷ 97 ∷ [], 0) ∷ []; accepted = 1 }

abbrev taken : Purger
taken = record fresh { in_flight = (47 ∷ 97 ∷ [], 1) ∷ []; accepted = 1 }

-- The server does not know the path: the task goes back to the queue.
abbrev again : Purger
again = record fresh { purge_queue = (47 ∷ 97 ∷ [], 1) ∷ []; accepted = 1 }

retried : finish (47 ∷ 97 ∷ [], 1) 412 [] (record taken { in_flight = [] }) ≡ again
unfolding program
retried = refl

run : Run fresh (finish (47 ∷ 97 ∷ [], 1) 412 [] (record taken { in_flight = [] }))
unfolding program
run =
    next fresh taken _
      (next fresh added taken
        (next fresh fresh added (start fresh) (adds fresh added (97 ∷ []) true refl))
        (takes added taken refl))
      (finishes taken [] [] (47 ∷ 97 ∷ [], 1) 412 [] refl)
