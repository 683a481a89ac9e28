-- ===== src/Examples/Deletions.antt =====
-- A run of the deleter of src/io/async_deleter.cpp, and its theorem at that run.
use x_cache_manager.Prelude.{true, ◌≡◌, refl, [], ◌∷◌, length}
use x_cache_manager.Deleter
use x_cache_manager.Deleter.{
  Deleter, Removal, removed, Phase, outside, passed, Step, runs, submits, takes, finishes, stops,
  waits, Run, start, next, construct, submit, finish,
}
use x_cache_manager.Deleter.Waiting.{IsValid, stop_waits}

program : Unit {0}
unfolding construct Deleter.run submit Deleter.has_idle Deleter.take_from Deleter.take_handler
    Deleter.count Deleter.remove_file Deleter.count_off finish Deleter.stop_from Deleter.stop
program = tt

-- Two threads.
abbrev running : Deleter
running = record {
  threads = 2;
  running = true;
  handlers = [];
  in_flight = [];
  notifying = 0;
  working_jobs = 0;
  phase = outside;
  submitted = 0;
  finished = 0;
  reported = [];
}

abbrev busy : Deleter
busy = record running { in_flight = (b'f' ∷ []) ∷ []; working_jobs = 1; submitted = 1 }

-- There was no such file, which is reported.
abbrev done : Deleter
done = record running { notifying = 1; submitted = 1; finished = 1; reported = (b'f' ∷ []) ∷ [] }

removed_nothing : finish (b'f' ∷ []) (removed 0) (record busy { in_flight = [] }) ≡ done
unfolding program
removed_nothing = refl

run : Run (construct 2) done
unfolding program
run =
    next (construct 2) busy done
      (next (construct 2) (submit (b'f' ∷ []) running) busy
        (next (construct 2) running _
          (next (construct 2) (construct 2) running (start (construct 2))
            (runs (construct 2) running refl))
          (submits running (b'f' ∷ [])))
        (takes _ busy refl))
      (finishes busy [] [] (b'f' ∷ []) (removed 0) refl)

abbrev stopped : Deleter
stopped = record done { phase = passed }

stop_step : Step done stopped
unfolding program
stop_step = stops done stopped refl

stop_waits_example :
    IsValid stopped
    × ((stopped.finished ≡ stopped.submitted)
        × (length stopped.handlers ≡ 0)
        × (length stopped.in_flight ≡ 0))
stop_waits_example = stop_waits 2 done stopped run stop_step
