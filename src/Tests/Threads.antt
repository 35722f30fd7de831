-- ===== src/Tests/Threads.antt =====
-- Runs of the dispatcher, and instances of its theorems.
use nymph_mqtt.Common.{◌≡◌, ◌≢◌, refl, true, false, List, [], ◌∷◌, some, get_elem?, set_elem, arith}
use nymph_mqtt.Dispatcher.{
  Worker, System, processing, adding, waiting, finished, init, stop_all, Action, request, push,
  work, step, run,
}
use nymph_mqtt.Dispatcher.Validity.{front_idle}
use nymph_mqtt.Dispatcher.Conservation.{present, present-run}
use nymph_mqtt.Dispatcher.Stopping.{run-stop_all}
use nymph_mqtt.Dispatcher.Progress.{worker, rounds, run-rounds}

-- The worker finds no request and enters the queue.
abbrev to_sleep : List Action
to_sleep = work 0 ∷ work 0 ∷ work 0 ∷ []

served_request :
    (run
      (init 0 1)
      (work 0 ∷ work 0 ∷ work 0 ∷ request 7 ∷ work 0 ∷ work 0 ∷ work 0 ∷ [])).processed
    ≡ 7 ∷ []
unfolding run step init get_elem? set_elem
served_request = refl

-- A request that comes between the two locks of `addWorker` stays in the queue while the worker waits.
abbrev crossing : List Action
crossing = work 0 ∷ request 7 ∷ work 0 ∷ push 7 ∷ work 0 ∷ work 0 ∷ work 0 ∷ []

left_waiting : run (init 0 1) crossing ≡ record {
  requests = 7 ∷ [];
  workers = 0 ∷ [];
  all_workers = worker 0 true false waiting ∷ [];
  callers = [];
  processed = [];
}
unfolding run step init get_elem? set_elem
left_waiting = refl

counted : present 7 (run (init 0 2) crossing) ≡ 1
counted = present-run 7 0 2 crossing

idle_front :
    (w : Worker) × (get_elem? (run (init 0 1) to_sleep).all_workers 0 ≡ some w)
    × (w.ready ≡ false)
    × (w.place ≢ processing)
unfolding run step init get_elem? set_elem
idle_front = front_idle 0 1 0 [] to_sleep refl

abbrev two_queued : System
two_queued = record {
  requests = 3 ∷ 4 ∷ [];
  workers = [];
  all_workers = worker 0 true false adding ∷ [];
  callers = [];
  processed = [];
}

both_served :
    ((run two_queued (rounds (3 ∷ 4 ∷ []) 0)).requests ≡ [])
    × ((run two_queued (rounds (3 ∷ 4 ∷ []) 0)).processed ≡ 4 ∷ 3 ∷ [])
unfolding get_elem?
both_served = run-rounds (3 ∷ 4 ∷ []) two_queued 0 0 refl refl

-- One worker, with a request in the queue, is stopped while it waits for the first lock.
all_finished :
    (w : Worker) × (get_elem?
        (run
          (stop_all two_queued)
          (work 0 ∷ request 9 ∷ work 0 ∷ work 0 ∷ work 0 ∷ work 0 ∷ [])).all_workers
        0
      ≡ some w)
    × (w.place ≡ finished)
all_finished =
    run-stop_all two_queued (work 0 ∷ request 9 ∷ work 0 ∷ work 0 ∷ work 0 ∷ work 0 ∷ []) 0
      (omega arith) (omega arith)
