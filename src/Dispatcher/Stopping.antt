-- ===== src/Dispatcher/Stopping.antt =====
-- A worker that is stopped leaves its loop, whatever the other threads do.
use nymph_mqtt.Common.{
  ℕ, zero, suc, ◌+◌, ◌-◌, ◌≤◌, ◌<◌, ◌≡◌, ◌≢◌, refl, ◌∙◌, sym, subst, false, List, [], ◌∷◌, length,
  Option, none, some, ◌==◌, arith, get_elem?, get_elem?-set_elem_ne, Bool-cases, inl, inr, ==→eq,
  ==→ne,
}
use nymph_mqtt.Dispatcher.{
  Place, top, processing, adding, enqueueing, waiting, finished, Worker, System, stop_worker,
  Action, request, push, work, stop, step, run, stop_from, stop_all,
}
use nymph_mqtt.Dispatcher.Ending.{
  rank, works, Ending, EndsIn, put-EndsIn, stop_worker-EndsIn, step-EndsIn,
}

works-cons :
    (i : ℕ) (a : Action) (more : List Action) → works i (a ∷ []) + works i more ≡ works i (a ∷ more)
works-cons i (request r) more = omega arith
works-cons i (push r) more = omega arith
works-cons i (work j) more = omega arith
works-cons i (stop j) more = omega arith

run-EndsIn :
    (actions : List Action) (s : System) (i k : ℕ)
    → EndsIn s i k
    → EndsIn (run s actions) i (k - works i actions)
unfolding run
run-EndsIn [] s i k h = subst (λ n. EndsIn s i n) (omega arith) h
run-EndsIn (a ∷ more) s i k h =
    subst (λ n. EndsIn (run (step s a) more) i n) (omega (arith, works-cons i a more))
      (run-EndsIn more (step s a) i (k - works i (a ∷ [])) (step-EndsIn a s i k h))

rank_small : (place : Place) → rank place ≤ 5
rank_small top = omega arith
rank_small processing = omega arith
rank_small adding = omega arith
rank_small enqueueing = omega arith
rank_small waiting = omega arith
rank_small finished = omega arith

stop_worker_here :
    (o : Option Worker) (s : System) (i : ℕ) (w : Worker)
    → get_elem? s.all_workers i ≡ o
    → o ≡ some w
    → EndsIn (stop_worker o s i) i 5
stop_worker_here none s i w e f = cc
stop_worker_here (some v) s i w e f =
    put-EndsIn s i 5 v (record v { running = false }) e (refl, rank_small v.place)

stop_worker_ne :
    (o : Option Worker) (s : System) (i j : ℕ)
    → j ≢ i
    → get_elem? (stop_worker o s j).all_workers i ≡ get_elem? s.all_workers i
stop_worker_ne none s i j d = refl
stop_worker_ne (some w) s i j d =
    get_elem?-set_elem_ne s.all_workers j i (record w { running = false }) d

stop_from_keeps : (left j : ℕ) (s : System) (i : ℕ) → EndsIn s i 5 → EndsIn (stop_from left j s) i 5
unfolding stop_from
stop_from_keeps zero j s i h = h
stop_from_keeps (suc left) j s i h =
    stop_from_keeps left (suc j) (stop_worker (get_elem? s.all_workers j) s j) i
      (stop_worker-EndsIn (get_elem? s.all_workers j) s i j 5 refl h)

stop_from-EndsIn :
    (left j : ℕ) (s : System) (i : ℕ) (w : Worker)
    → j ≤ i
    → i < j + left
    → get_elem? s.all_workers i ≡ some w
    → EndsIn (stop_from left j s) i 5
unfolding stop_from
stop_from-EndsIn zero j s i w low high e = absurd (omega arith)
stop_from-EndsIn (suc left) j s i w low high e = elim (Bool-cases (j == i)) [
  | inl q ↦ stop_from_keeps left (suc j) (stop_worker (get_elem? s.all_workers j) s j) i (
      subst (λ x. EndsIn (stop_worker (get_elem? s.all_workers x) s x) i 5) (sym (==→eq j i q))
        (stop_worker_here (get_elem? s.all_workers i) s i w refl e))
  | inr d ↦
      let ne : j ≢ i = ==→ne j i d in
      stop_from-EndsIn left (suc j) (stop_worker (get_elem? s.all_workers j) s j) i w (omega arith)
        (omega arith) (stop_worker_ne (get_elem? s.all_workers j) s i j ne ∙ e)
]

there : (l : List Worker) (i : ℕ) → i < length l → (w : Worker) × (get_elem? l i ≡ some w)
unfolding get_elem?
there [] i h = absurd (omega arith)
there (x ∷ l) zero h = (x, refl)
there (x ∷ l) (suc i) h = there l i (omega arith)

of_rank : (place : Place) → rank place ≤ 0 → place ≡ finished
of_rank top h = absurd (omega arith)
of_rank processing h = absurd (omega arith)
of_rank adding h = absurd (omega arith)
of_rank enqueueing h = absurd (omega arith)
of_rank waiting h = absurd (omega arith)
of_rank finished h = refl

ended :
    (o : Option Worker) (i : ℕ) → Ending i 0 o → (w : Worker) × (o ≡ some w) × (w.place ≡ finished)
ended none i h = absurd h
ended (some w) i (r, h) = (w, refl, of_rank w.place h)

-- After the loop of `Dispatcher::stop`, in any state of the queues and the workers, a worker leaves its loop
-- within five of its own steps, whatever the others do in between: requests that are added or given to
-- it, and other workers. So `join` returns for its thread, when it gets these steps.
pub run-stop_all :
    (s : System) (actions : List Action) (i : ℕ)
    → i < length s.all_workers
    → 5 ≤ works i actions
    → (w : Worker) × (get_elem? (run (stop_all s) actions).all_workers i ≡ some w)
      × (w.place ≡ finished)
unfolding stop_all
run-stop_all s actions i known enough =
    let (w, e) = there s.all_workers i known in
    ended (get_elem? (run (stop_all s) actions).all_workers i) i (
      subst (λ n. EndsIn (run (stop_all s) actions) i n) (omega arith)
        (run-EndsIn actions (stop_all s) i 5
          (stop_from-EndsIn (length s.all_workers) 0 s i w (omega arith) (omega arith) e)))
