-- ===== src/Dispatcher/Validity.antt =====
-- A worker that waits stands in the queue once, or it has a request, and never both.
use nymph_mqtt.Common.{
  ℕ, zero, suc, ◌+◌, ◌≤◌, ◌≡◌, ◌≢◌, refl, ap, ◌∙◌, sym, Bool, true, false, List, [], ◌∷◌, ◌++◌,
  Option, none, some, if◌then◌else◌, ◌==◌, arith, replicate, get_elem?, set_elem,
  get_elem?-set_elem, get_elem?-set_elem_ne, Bool-cases, inl, inr, ◌⊎◌, ==→eq, ==→ne, subst,
}
use nymph_mqtt.Common.Map.{count, count-append}
use nymph_mqtt.Dispatcher.{
  Place, top, processing, adding, enqueueing, waiting, finished, Worker, System, init, set_request,
  put, assign, add_request_to, push_request, add_worker, run_at, run_worker, stop_worker, Action,
  request, push, work, stop, step, run, new_worker,
}

abbrev pub flag : Bool → ℕ
flag b = if b then 1 else 0

-- How often a worker may stand in the queue, by its place and its mark.
abbrev pub Fits : Place → Bool → ℕ → Type 0
Fits top ready k = k ≡ 0
Fits processing ready k = (k ≡ 0) × (ready ≡ false)
Fits adding ready k = (k ≡ 0) × (ready ≡ false)
Fits enqueueing ready k = (k ≡ 0) × (ready ≡ false)
Fits waiting ready k = k + flag ready ≡ 1
Fits finished ready k = k + flag ready ≤ 1

-- The queue holds no index without a worker.
abbrev pub FitsAt : Option Worker → ℕ → Type 0
FitsAt none k = k ≡ 0
FitsAt (some w) k = Fits w.place w.ready k

pub record IsValid (s : System) : Type 0 where
  pub slots : (i : ℕ) → FitsAt (get_elem? s.all_workers i) (count i s.workers)

-- To set one worker and its count keeps the others.
set_slots :
    (s : System) (i : ℕ) (w w' : Worker) (queue : List ℕ)
    → IsValid s
    → get_elem? s.all_workers i ≡ some w
    → Fits w'.place w'.ready (count i queue)
    → ((j : ℕ) → i ≢ j → count j queue ≡ count j s.workers)
    → (j : ℕ) → FitsAt (get_elem? (set_elem s.all_workers i w') j) (count j queue)
set_slots s i w w' queue v e fits same j = elim (Bool-cases (i == j)) [
  | inl eq ↦
      subst (λ k. FitsAt (get_elem? (set_elem s.all_workers i w') k) (count k queue)) (==→eq i j eq)
        (rw (get_elem?-set_elem s.all_workers i w w' e) fits)
  | inr ne ↦
      rw (get_elem?-set_elem_ne s.all_workers i j w' (==→ne i j ne), same j (==→ne i j ne))
        (v.slots j)
]

-- To put a worker of another state in its place.
put-IsValid :
    (s : System) (i : ℕ) (w w' : Worker)
    → IsValid s
    → get_elem? s.all_workers i ≡ some w
    → Fits w'.place w'.ready (count i s.workers)
    → IsValid (put s i w')
put-IsValid s i w w' v e fits = record {
  slots = set_slots s i w w' s.workers v e fits (λ j d. refl);
}

slot_of :
    (s : System) (i : ℕ) (w : Worker)
    → IsValid s
    → get_elem? s.all_workers i ≡ some w
    → Fits w.place w.ready (count i s.workers)
slot_of s i w v e = subst (λ o. FitsAt o (count i s.workers)) e (v.slots i)

add_worker-IsValid :
    (requests : List ℕ) (s : System) (i : ℕ) (w : Worker)
    → IsValid s
    → get_elem? s.all_workers i ≡ some w
    → Fits adding w.ready (count i s.workers)
    → IsValid (add_worker requests s i w)
add_worker-IsValid [] s i w v e fits = put-IsValid s i w _ v e fits
add_worker-IsValid (r ∷ rest) s i w v e fits = record {
  slots = set_slots s i w _ s.workers v e fits.0 (λ j d. refl);
}

leave_top :
    (running ready : Bool) (s : System) (i : ℕ) (w : Worker)
    → IsValid s
    → get_elem? s.all_workers i ≡ some w
    → count i s.workers ≡ 0
    → w.ready ≡ ready
    → IsValid (
        if running
        then (if ready
            then put s i (record w { ready = false; place = processing })
            else put s i (record w { place = adding }))
        else put s i (record w { place = finished }))
leave_top true true s i w v e free r = put-IsValid s i w _ v e (free, refl)
leave_top true false s i w v e free r = put-IsValid s i w _ v e (free, r)
leave_top false ready s i w v e free r = put-IsValid s i w _ v e (ground arith)

leave_waiting :
    (ready running : Bool) (s : System) (i : ℕ) (w : Worker)
    → IsValid s
    → get_elem? s.all_workers i ≡ some w
    → count i s.workers + flag w.ready ≡ 1
    → w.ready ≡ ready
    → IsValid (
        if ready
        then put s i (record w { place = top })
        else if running
        then s
        else put s i (record w { place = finished }))
leave_waiting true running s i w v e fits r = put-IsValid s i w _ v e (ground arith)
leave_waiting false true s i w v e fits r = v
leave_waiting false false s i w v e fits r = put-IsValid s i w _ v e (ground arith)

run_at-IsValid :
    (place : Place) (s : System) (i : ℕ) (w : Worker)
    → IsValid s
    → get_elem? s.all_workers i ≡ some w
    → Fits place w.ready (count i s.workers)
    → IsValid (run_at place s i w)
run_at-IsValid top s i w v e fits = leave_top w.running w.ready s i w v e fits refl
run_at-IsValid processing s i w v e fits = record {
  slots = set_slots s i w _ s.workers v e fits (λ j d. refl);
}
run_at-IsValid adding s i w v e fits = add_worker-IsValid s.requests s i w v e fits
run_at-IsValid enqueueing s i w v e fits =
    let ends : (j : ℕ) → i ≢ j → count j (s.workers ++ (i ∷ [])) ≡ count j s.workers =
      λ j d. ground (arith, count-append j s.workers (i ∷ [])) in
    record {
      slots =
          set_slots s i w _ (s.workers ++ (i ∷ [])) v e
            (ground (arith, count-append i s.workers (i ∷ []))) ends;
    }
run_at-IsValid waiting s i w v e fits = leave_waiting w.ready w.running s i w v e fits refl
run_at-IsValid finished s i w v e fits = v

run_worker-IsValid :
    (o : Option Worker) (s : System) (i : ℕ)
    → IsValid s
    → get_elem? s.all_workers i ≡ o
    → IsValid (run_worker o s i)
run_worker-IsValid none s i v e = v
run_worker-IsValid (some w) s i v e = run_at-IsValid w.place s i w v e (slot_of s i w v e)

stop_worker-IsValid :
    (o : Option Worker) (s : System) (i : ℕ)
    → IsValid s
    → get_elem? s.all_workers i ≡ o
    → IsValid (stop_worker o s i)
stop_worker-IsValid none s i v e = v
stop_worker-IsValid (some w) s i v e = put-IsValid s i w _ v e (slot_of s i w v e)

-- The worker that a queue starts with has no request, and stands in the rest of the queue no more.
pub front :
    (place : Place) (ready : Bool) (k : ℕ)
    → Fits place ready (1 + k)
    → (k ≡ 0) × (ready ≡ false) × ((place ≡ waiting) ⊎ (place ≡ finished))
front top ready k h = absurd (omega arith)
front processing ready k (h, r) = absurd (omega arith)
front adding ready k (h, r) = absurd (omega arith)
front enqueueing ready k (h, r) = absurd (omega arith)
front waiting true k h = absurd (omega arith)
front waiting false k h = (omega arith, refl, inl refl)
front finished true k h = absurd (omega arith)
front finished false k h = (omega arith, refl, inr refl)

count_front : (i : ℕ) (rest : List ℕ) → count i (i ∷ rest) ≡ 1 + count i rest
count_front i rest = ground arith

-- The slot of the worker that the queue starts with.
pub front_slot :
    (s : System) (i : ℕ) (rest : List ℕ)
    → IsValid s
    → s.workers ≡ i ∷ rest
    → FitsAt (get_elem? s.all_workers i) (1 + count i rest)
front_slot s i rest v e =
    subst (λ k. FitsAt (get_elem? s.all_workers i) k) (ap (count i) e ∙ count_front i rest)
      (v.slots i)

assign-IsValid :
    (o : Option Worker) (s : System) (i r : ℕ) (rest : List ℕ)
    → IsValid s
    → s.workers ≡ i ∷ rest
    → get_elem? s.all_workers i ≡ o
    → FitsAt o (1 + count i rest)
    → IsValid (record (assign o s i r) { workers = rest })
assign-IsValid none s i r rest v e g fits = absurd (omega arith)
assign-IsValid (some w) s i r rest v e g fits =
    let (free, idle, where_) = front w.place w.ready (count i rest) fits in
    record {
      slots =
          set_slots s i w (set_request r w) rest v g
            (elim where_ [
              | inl p ↦ subst (λ q. Fits q true (count i rest)) (sym p) (omega arith)
              | inr p ↦ subst (λ q. Fits q true (count i rest)) (sym p) (omega arith)
            ])
            (λ j d. sym (ap (count j) e ∙ ground arith));
    }

add_request-IsValid :
    (queue : List ℕ) (s : System) (r : ℕ)
    → IsValid s
    → s.workers ≡ queue
    → IsValid (add_request_to queue s r)
add_request-IsValid [] s r v e = record { slots = v.slots }
add_request-IsValid (i ∷ rest) s r v e =
    assign-IsValid (get_elem? s.all_workers i) s i r rest v e refl (front_slot s i rest v e)

push_request-IsValid : (s : System) (r : ℕ) → IsValid s → IsValid (push_request s r)
push_request-IsValid s r v = elim (Bool-cases (count r s.callers == 0)) [
  | inl absent ↦ rw absent v
  | inr there ↦ rw there (record { slots = v.slots })
]

-- Every step of every thread keeps the system valid.
pub step-IsValid : (s : System) (a : Action) → IsValid s → IsValid (step s a)
unfolding step
step-IsValid s (request r) v = add_request-IsValid s.workers s r v refl
step-IsValid s (push r) v = push_request-IsValid s r v
step-IsValid s (work i) v = run_worker-IsValid (get_elem? s.all_workers i) s i v refl
step-IsValid s (stop i) v = stop_worker-IsValid (get_elem? s.all_workers i) s i v refl

new_slots : (junk n i : ℕ) → FitsAt (get_elem? (replicate n (new_worker junk)) i) 0
unfolding get_elem?
new_slots junk zero i = refl
new_slots junk (suc n) zero = refl
new_slots junk (suc n) (suc i) = new_slots junk n i

pub init-IsValid : (junk n : ℕ) → IsValid (init junk n)
unfolding init
init-IsValid junk n = record { slots = λ i. new_slots junk n i }

pub run-IsValid : (more : List Action) (s : System) → IsValid s → IsValid (run s more)
unfolding run
run-IsValid [] s v = v
run-IsValid (a ∷ more) s v = run-IsValid more (step s a) (step-IsValid s a v)

-- Whatever the threads did before, `addRequest` never writes over a request that a worker has not
-- taken yet: the worker at the front of the queue exists, has no request, and does not run one.
pub front_idle :
    (junk n i : ℕ) (rest : List ℕ) (before : List Action)
    → (run (init junk n) before).workers ≡ i ∷ rest
    → (w : Worker) × (get_elem? (run (init junk n) before).all_workers i ≡ some w)
      × (w.ready ≡ false)
      × (w.place ≢ processing)
front_idle junk n i rest before e =
    idle_of _ refl
      (front_slot (run (init junk n) before) i rest (run-IsValid before _ (init-IsValid junk n)) e)
  where
    idle_of :
        (o : Option Worker)
        → get_elem? (run (init junk n) before).all_workers i ≡ o
        → FitsAt o (1 + count i rest)
        → (w : Worker) × (get_elem? (run (init junk n) before).all_workers i ≡ some w)
          × (w.ready ≡ false)
          × (w.place ≢ processing)
    idle_of none g fits = absurd (omega arith)
    idle_of (some w) g fits =
        let (free, idle, where_) = front w.place w.ready (count i rest) fits in
        (w, g, idle, λ p. elim where_ [ inl q ↦ cc | inr q ↦ cc ])
