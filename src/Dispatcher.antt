-- ===== src/Dispatcher.antt =====
-- src/cpp/dispatcher.h, dispatcher.cpp, worker.h and worker.cpp: requests, and the threads that serve
-- them. A step is what happens under one lock, or between two accesses of shared members.
pub mod Validity
pub mod Conservation
pub mod Progress
pub mod Ending
pub mod Stopping
use nymph_mqtt.Common.{
  ℕ, zero, suc, ◌+◌, Bool, true, false, List, [], ◌∷◌, ◌++◌, Option, none, some, if◌then◌else◌,
  ◌==◌, replicate, length, get_elem?, set_elem,
}
use nymph_mqtt.Common.Map.{count}

-- Where `Worker::run` stands: before `while (running)`, in `process`, before the first lock of
-- `addWorker`, before its second lock, in the loop that waits for `ready`, and behind its end.
pub data Place : Type 0 where
  top processing adding enqueueing waiting finished : Place

-- A request is its address.
pub record Worker : Type 0 where
  pub request : ℕ
  pub running : Bool
  pub ready : Bool
  pub place : Place

-- The static members of `Dispatcher` (a worker is its index in `allWorkers`), the requests whose
-- `addRequest` found no worker and waits for the second lock, and the requests that were processed.
pub record System : Type 0 where
  pub requests : List ℕ
  pub workers : List ℕ
  pub all_workers : List Worker
  pub callers : List ℕ
  pub processed : List ℕ

-- `Worker()`; `request` is not initialised.
abbrev pub new_worker : ℕ → Worker
new_worker junk = record { request = junk; running = true; ready = false; place = top }

unfoldable pub init : ℕ → ℕ → System
init junk n = record {
  requests = [];
  workers = [];
  all_workers = replicate n (new_worker junk);
  callers = [];
  processed = [];
}

abbrev pub set_request : ℕ → Worker → Worker
set_request r w = record w { request = r; ready = true }

abbrev pub put : System → ℕ → Worker → System
put s i w = record s { all_workers = set_elem s.all_workers i w }

abbrev pub assign : Option Worker → System → ℕ → ℕ → System
assign none s i r = s
assign (some w) s i r = put s i (set_request r w)

-- `addRequest` under the first lock: the first worker of the queue gets the request, or the caller
-- goes on to the second lock.
abbrev pub add_request_to : List ℕ → System → ℕ → System
add_request_to [] s r = record s { callers = r ∷ s.callers }
add_request_to (i ∷ rest) s r = record (assign (get_elem? s.all_workers i) s i r) { workers = rest }

abbrev pub remove : ℕ → List ℕ → List ℕ
remove r [] = []
remove r (c ∷ cs) = if c == r then cs else c ∷ remove r cs

-- `addRequest` under the second lock, for one of the callers that wait there.
abbrev pub push_request : System → ℕ → System
push_request s r =
    if count r s.callers == 0
    then s
    else record s { callers = remove r s.callers; requests = s.requests ++ (r ∷ []) }

-- `addWorker` under the first lock.
abbrev pub add_worker : List ℕ → System → ℕ → Worker → System
add_worker [] s i w = put s i (record w { place = enqueueing })
add_worker (r ∷ rest) s i w =
    put (record s { requests = rest }) i (record (set_request r w) { place = top })

-- One step of `Worker::run`. The waiting loop that is left since `running` is false leaves the outer
-- loop with it.
abbrev pub run_at : Place → System → ℕ → Worker → System
run_at top s i w =
    if w.running
    then (if w.ready
        then put s i (record w { ready = false; place = processing })
        else put s i (record w { place = adding }))
    else put s i (record w { place = finished })
run_at processing s i w =
    put (record s { processed = w.request ∷ s.processed }) i (record w { place = adding })
run_at adding s i w = add_worker s.requests s i w
run_at enqueueing s i w =
    put (record s { workers = s.workers ++ (i ∷ []) }) i (record w { place = waiting })
run_at waiting s i w =
    if w.ready
    then put s i (record w { place = top })
    else if w.running
    then s
    else put s i (record w { place = finished })
run_at finished s i w = s

abbrev pub run_worker : Option Worker → System → ℕ → System
run_worker none s i = s
run_worker (some w) s i = run_at w.place s i w

-- `stop` of one worker, which `Dispatcher::stop` calls for each.
abbrev pub stop_worker : Option Worker → System → ℕ → System
stop_worker none s i = s
stop_worker (some w) s i = put s i (record w { running = false })

-- What can happen next: a thread calls `addRequest`, or takes its second lock; a worker goes on; a
-- worker is stopped.
pub data Action : Type 0 where
  request : ℕ → Action
  push : ℕ → Action
  work : ℕ → Action
  stop : ℕ → Action

unfoldable pub step : System → Action → System
step s (request r) = add_request_to s.workers s r
step s (push r) = push_request s r
step s (work i) = run_worker (get_elem? s.all_workers i) s i
step s (stop i) = stop_worker (get_elem? s.all_workers i) s i

-- An interleaving of the threads.
unfoldable pub run : System → List Action → System
run s [] = s
run s (a ∷ more) = run (step s a) more

-- `Dispatcher::stop`: the first loop, over the workers. The second loop joins the threads: it comes to
-- its end when every worker is finished.
unfoldable pub stop_from : ℕ → ℕ → System → System
stop_from zero i s = s
stop_from (suc left) i s = stop_from left (suc i) (stop_worker (get_elem? s.all_workers i) s i)

unfoldable pub stop_all : System → System
stop_all s = stop_from (length s.all_workers) 0 s
