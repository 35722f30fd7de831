-- ===== src/Dispatcher/Progress.antt =====
-- A worker that runs serves the queue in its order.
use nymph_mqtt.Common.{
  ℕ, ◌≡◌, refl, ap, ◌∙◌, Bool, true, false, List, [], ◌∷◌, some, get_elem?, get_elem?-set_elem,
}
use nymph_mqtt.Dispatcher.{
  Place, top, processing, adding, Worker, System, put, add_worker, run_at, run_worker, Action, work,
  step, run,
}

abbrev pub worker : ℕ → Bool → Bool → Place → Worker
worker r running ready place = record {
  request = r;
  running = running;
  ready = ready;
  place = place;
}

work_step :
    (s : System) (i : ℕ) (w : Worker)
    → get_elem? s.all_workers i ≡ some w
    → step s (work i) ≡ run_at w.place s i w
unfolding step
work_step s i w e = ap (λ o. run_worker o s i) e

put_get :
    (s : System) (i : ℕ) (w w' : Worker)
    → get_elem? s.all_workers i ≡ some w
    → get_elem? (put s i w').all_workers i ≡ some w'
put_get s i w w' e = get_elem?-set_elem s.all_workers i w w' e

-- After one round the first request is processed and the worker is where it was.
abbrev after : System → ℕ → ℕ → List ℕ → System
after s i r rest =
    let s1 = put (record s { requests = rest }) i (worker r true true top) in
    let s2 = put s1 i (worker r true false processing) in
    put (record s2 { processed = r ∷ s.processed }) i (worker r true false adding)

one_round :
    (s : System) (i r' r : ℕ) (rest : List ℕ)
    → get_elem? s.all_workers i ≡ some (worker r' true false adding)
    → s.requests ≡ r ∷ rest
    → (step (step (step s (work i)) (work i)) (work i) ≡ after s i r rest)
      × (get_elem? (after s i r rest).all_workers i ≡ some (worker r true false adding))
one_round s i r' r rest e q =
    let s1 : System = put (record s { requests = rest }) i (worker r true true top) in
    let g1 : get_elem? s1.all_workers i ≡ some (worker r true true top) =
      put_get (record s { requests = rest }) i _ (worker r true true top) e in
    let s2 : System = put s1 i (worker r true false processing) in
    let g2 : get_elem? s2.all_workers i ≡ some (worker r true false processing) =
      put_get s1 i _ (worker r true false processing) g1 in
    let h1 : step s (work i) ≡ s1 =
      work_step s i (worker r' true false adding) e
      ∙ ap (λ rs. add_worker rs s i (worker r' true false adding)) q in
    let h2 : step s1 (work i) ≡ s2 = work_step s1 i (worker r true true top) g1 in
    let h3 : step s2 (work i) ≡ after s i r rest =
      work_step s2 i (worker r true false processing) g2 in
    (
      ap (λ t. step (step t (work i)) (work i)) h1 ∙ ap (λ t. step t (work i)) h2 ∙ h3,
      put_get s2 i _ (worker r true false adding) g2,
    )

-- Three steps for each request.
abbrev pub rounds : List ℕ → ℕ → List Action
rounds [] i = []
rounds (r ∷ rest) i = work i ∷ work i ∷ work i ∷ rounds rest i

-- The requests, the last one first, before those that are done.
abbrev pub served : List ℕ → List ℕ → List ℕ
served [] done = done
served (r ∷ rest) done = served rest (r ∷ done)

-- A running worker that has come to `addWorker` and goes on alone processes every request of the queue,
-- in the order of the queue, in three steps each.
pub run-rounds :
    (queue : List ℕ) (s : System) (i r' : ℕ)
    → get_elem? s.all_workers i ≡ some (worker r' true false adding)
    → s.requests ≡ queue
    → ((run s (rounds queue i)).requests ≡ [])
      × ((run s (rounds queue i)).processed ≡ served queue s.processed)
unfolding run
run-rounds [] s i r' e q = (q, refl)
run-rounds (r ∷ rest) s i r' e q =
    let (same, g) = one_round s i r' r rest e q in
    let (empty, all) = run-rounds rest (after s i r rest) i r g refl in
    (
      ap (λ t. (run t (rounds rest i)).requests) same ∙ empty,
      ap (λ t. (run t (rounds rest i)).processed) same ∙ all,
    )
