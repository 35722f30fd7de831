-- ===== src/Dispatcher/Ending.antt =====
-- A worker that is stopped comes nearer to its end with each of its steps.
use nymph_mqtt.Common.{
  ℕ, ◌+◌, ◌-◌, ◌≤◌, ◌≡◌, ◌≢◌, refl, ap, ◌∙◌, sym, subst, Bool, true, false, List, [], ◌∷◌, ◌++◌,
  Option, none, some, if◌then◌else◌, ◌==◌, arith, get_elem?, get_elem?-set_elem,
  get_elem?-set_elem_ne, Bool-cases, inl, inr, ==→eq, ==→ne,
}
use nymph_mqtt.Common.Map.{count}
use nymph_mqtt.Dispatcher.{
  Place, top, processing, adding, enqueueing, waiting, finished, Worker, System, set_request, put,
  assign, add_request_to, push_request, remove, add_worker, run_at, run_worker, stop_worker, Action,
  request, push, work, stop, step,
}

-- The steps that a worker which is stopped needs at most.
abbrev pub rank : Place → ℕ
rank finished = 0
rank top = 1
rank waiting = 2
rank enqueueing = 3
rank adding = 4
rank processing = 5

-- How many steps of a worker there are.
abbrev pub works : ℕ → List Action → ℕ
works i [] = 0
works i (request r ∷ more) = works i more
works i (push r ∷ more) = works i more
works i (work j ∷ more) = (if j == i then 1 else 0) + works i more
works i (stop j ∷ more) = works i more

-- The worker is told to stop, and `k` steps are enough for it.
abbrev pub Ending : ℕ → ℕ → Option Worker → Type 0
Ending i k none = ⊥
Ending i k (some w) = (w.running ≡ false) × (rank w.place ≤ k)

abbrev pub EndsIn : System → ℕ → ℕ → Type 0
EndsIn s i k = Ending i k (get_elem? s.all_workers i)

pub put-EndsIn :
    (s : System) (i k : ℕ) (w w' : Worker)
    → get_elem? s.all_workers i ≡ some w
    → Ending i k (some w')
    → EndsIn (put s i w') i k
put-EndsIn s i k w w' e h =
    subst (λ o. Ending i k o) (sym (get_elem?-set_elem s.all_workers i w w' e)) h

add_worker-EndsIn :
    (requests : List ℕ) (s : System) (i k : ℕ) (w : Worker)
    → get_elem? s.all_workers i ≡ some w
    → w.running ≡ false
    → 4 ≤ k
    → EndsIn (add_worker requests s i w) i (k - 1)
add_worker-EndsIn [] s i k w e r h =
    put-EndsIn s i (k - 1) w (record w { place = enqueueing }) e (r, omega arith)
add_worker-EndsIn (q ∷ rest) s i k w e r h =
    put-EndsIn (record s { requests = rest }) i (k - 1) w (record (set_request q w) { place = top })
      e (r, omega arith)

if_false-EndsIn :
    (b : Bool) (s t : System) (i k : ℕ) → b ≡ false → EndsIn t i k → EndsIn (if b then s else t) i k
if_false-EndsIn true s t i k e h = cc
if_false-EndsIn false s t i k e h = h

if-EndsIn :
    (b : Bool) (s t : System) (i k : ℕ)
    → EndsIn s i k
    → EndsIn t i k
    → EndsIn (if b then s else t) i k
if-EndsIn true s t i k h h' = h
if-EndsIn false s t i k h h' = h'

run_at-EndsIn :
    (place : Place) (s : System) (i k : ℕ) (w : Worker)
    → get_elem? s.all_workers i ≡ some w
    → w.running ≡ false
    → w.place ≡ place
    → rank place ≤ k
    → EndsIn (run_at place s i w) i (k - 1)
run_at-EndsIn top s i k w e r p h =
    let go : System = put s i (record w { ready = false; place = processing }) in
    let ask : System = put s i (record w { place = adding }) in
    if_false-EndsIn w.running (if w.ready then go else ask)
      (put s i (record w { place = finished })) i (k - 1) r
      (put-EndsIn s i (k - 1) w (record w { place = finished }) e (r, omega arith))
run_at-EndsIn processing s i k w e r p h =
    put-EndsIn (record s { processed = w.request ∷ s.processed }) i (k - 1) w
      (record w { place = adding }) e (r, omega arith)
run_at-EndsIn adding s i k w e r p h = add_worker-EndsIn s.requests s i k w e r h
run_at-EndsIn enqueueing s i k w e r p h =
    put-EndsIn (record s { workers = s.workers ++ (i ∷ []) }) i (k - 1) w
      (record w { place = waiting }) e (r, omega arith)
run_at-EndsIn waiting s i k w e r p h =
    let end : System = put s i (record w { place = finished }) in
    let up : System = put s i (record w { place = top }) in
    if-EndsIn w.ready up (if w.running then s else end) i (k - 1)
      (put-EndsIn s i (k - 1) w (record w { place = top }) e (r, omega arith))
      (if_false-EndsIn w.running s end i (k - 1) r
        (put-EndsIn s i (k - 1) w (record w { place = finished }) e (r, omega arith)))
run_at-EndsIn finished s i k w e r p h =
    subst (λ o. Ending i (k - 1) o) (sym e) (r, subst (λ q. rank q ≤ k - 1) (sym p) (omega arith))

run_worker-EndsIn :
    (o : Option Worker) (s : System) (i k : ℕ)
    → get_elem? s.all_workers i ≡ o
    → Ending i k o
    → EndsIn (run_worker o s i) i (k - 1)
run_worker-EndsIn none s i k e h = absurd h
run_worker-EndsIn (some w) s i k e (r, h) = run_at-EndsIn w.place s i k w e r refl h

-- What a worker does changes no other one.
add_worker_ne :
    (requests : List ℕ) (s : System) (i j : ℕ) (w : Worker)
    → j ≢ i
    → get_elem? (add_worker requests s j w).all_workers i ≡ get_elem? s.all_workers i
add_worker_ne [] s i j w d =
    get_elem?-set_elem_ne s.all_workers j i (record w { place = enqueueing }) d
add_worker_ne (q ∷ rest) s i j w d =
    get_elem?-set_elem_ne s.all_workers j i (record (set_request q w) { place = top }) d

if_put_ne :
    (b : Bool) (s : System) (i j : ℕ) (t t' : System)
    → get_elem? t.all_workers i ≡ get_elem? s.all_workers i
    → get_elem? t'.all_workers i ≡ get_elem? s.all_workers i
    → get_elem? (if b then t else t').all_workers i ≡ get_elem? s.all_workers i
if_put_ne true s i j t t' e f = e
if_put_ne false s i j t t' e f = f

run_at_ne :
    (place : Place) (s : System) (i j : ℕ) (w : Worker)
    → j ≢ i
    → get_elem? (run_at place s j w).all_workers i ≡ get_elem? s.all_workers i
run_at_ne top s i j w d =
    let put_ne : (w' : Worker) → get_elem? (put s j w').all_workers i ≡ get_elem? s.all_workers i =
      λ w'. get_elem?-set_elem_ne s.all_workers j i w' d in
    let end : System = put s j (record w { place = finished }) in
    let go : System = put s j (record w { ready = false; place = processing }) in
    let ask : System = put s j (record w { place = adding }) in
    if_put_ne w.running s i j (if w.ready then go else ask) end
      (if_put_ne w.ready s i j go ask (put_ne (record w { ready = false; place = processing }))
        (put_ne (record w { place = adding })))
      (put_ne (record w { place = finished }))
run_at_ne processing s i j w d =
    get_elem?-set_elem_ne s.all_workers j i (record w { place = adding }) d
run_at_ne adding s i j w d = add_worker_ne s.requests s i j w d
run_at_ne enqueueing s i j w d =
    get_elem?-set_elem_ne s.all_workers j i (record w { place = waiting }) d
run_at_ne waiting s i j w d =
    let end : System = put s j (record w { place = finished }) in
    let up : System = put s j (record w { place = top }) in
    if_put_ne w.ready s i j up (if w.running then s else end)
      (get_elem?-set_elem_ne s.all_workers j i (record w { place = top }) d)
      (if_put_ne w.running s i j s end refl
        (get_elem?-set_elem_ne s.all_workers j i (record w { place = finished }) d))
run_at_ne finished s i j w d = refl

run_worker_ne :
    (o : Option Worker) (s : System) (i j : ℕ)
    → j ≢ i
    → get_elem? (run_worker o s j).all_workers i ≡ get_elem? s.all_workers i
run_worker_ne none s i j d = refl
run_worker_ne (some w) s i j d = run_at_ne w.place s i j w d

-- A request, or another stop, for any worker.
change-EndsIn :
    (s : System) (i j k : ℕ) (w w' : Worker)
    → get_elem? s.all_workers j ≡ some w
    → ((w.running ≡ false) → w'.running ≡ false)
    → w'.place ≡ w.place
    → EndsIn s i k
    → EndsIn (put s j w') i k
change-EndsIn s i j k w w' e r p h = elim (Bool-cases (j == i)) [
  | inl q ↦
      let here : get_elem? s.all_workers i ≡ some w =
        ap (λ x. get_elem? s.all_workers x) (sym (==→eq j i q)) ∙ e in
      let (stopped, few) : (w.running ≡ false) × (rank w.place ≤ k) =
        subst (λ o. Ending i k o) here h in
      subst (λ x. EndsIn (put s x w') i k) (sym (==→eq j i q))
        (put-EndsIn s i k w w' here (r stopped, subst (λ x. rank x ≤ k) (sym p) few))
  | inr d ↦
      subst (λ o. Ending i k o) (sym (get_elem?-set_elem_ne s.all_workers j i w' (==→ne j i d))) h
]

assign-EndsIn :
    (o : Option Worker) (s : System) (i j k r : ℕ)
    → get_elem? s.all_workers j ≡ o
    → EndsIn s i k
    → EndsIn (assign o s j r) i k
assign-EndsIn none s i j k r e h = h
assign-EndsIn (some w) s i j k r e h = change-EndsIn s i j k w (set_request r w) e (λ q. q) refl h

add_request_to-EndsIn :
    (queue : List ℕ) (s : System) (i k r : ℕ) → EndsIn s i k → EndsIn (add_request_to queue s r) i k
add_request_to-EndsIn [] s i k r h = h
add_request_to-EndsIn (j ∷ rest) s i k r h =
    assign-EndsIn (get_elem? s.all_workers j) s i j k r refl h

pub stop_worker-EndsIn :
    (o : Option Worker) (s : System) (i j k : ℕ)
    → get_elem? s.all_workers j ≡ o
    → EndsIn s i k
    → EndsIn (stop_worker o s j) i k
stop_worker-EndsIn none s i j k e h = h
stop_worker-EndsIn (some w) s i j k e h =
    change-EndsIn s i j k w (record w { running = false }) e (λ q. refl) refl h

pub step-EndsIn :
    (a : Action) (s : System) (i k : ℕ) → EndsIn s i k → EndsIn (step s a) i (k - works i (a ∷ []))
unfolding step
step-EndsIn (request r) s i k h =
    subst (λ n. EndsIn (add_request_to s.workers s r) i n) (omega arith)
      (add_request_to-EndsIn s.workers s i k r h)
step-EndsIn (push r) s i k h =
    subst (λ n. EndsIn (push_request s r) i n) (omega arith)
      (if-EndsIn (count r s.callers == 0) s
        (record s { callers = remove r s.callers; requests = s.requests ++ (r ∷ []) }) i k h h)
step-EndsIn (work j) s i k h = elim (Bool-cases (j == i)) [
  | inl e ↦
      subst (λ x. EndsIn (run_worker (get_elem? s.all_workers x) s x) i (k - works i (work j ∷ [])))
        (sym (==→eq j i e))
        (subst (λ n. EndsIn (run_worker (get_elem? s.all_workers i) s i) i n) (rw e (omega arith))
          (run_worker-EndsIn (get_elem? s.all_workers i) s i k refl h))
  | inr d ↦
      subst (λ n. EndsIn (run_worker (get_elem? s.all_workers j) s j) i n) (rw d (omega arith))
        (subst (λ o. Ending i k o)
          (sym (run_worker_ne (get_elem? s.all_workers j) s i j (==→ne j i d))) h)
]
step-EndsIn (stop j) s i k h =
    subst (λ n. EndsIn (stop_worker (get_elem? s.all_workers j) s j) i n) (omega arith)
      (stop_worker-EndsIn (get_elem? s.all_workers j) s i j k refl h)
