-- ===== src/Dispatcher/Conservation.antt =====
-- No request is lost, and none is processed twice.
use nymph_mqtt.Common.{
  ℕ, zero, suc, ◌+◌, ◌≡◌, ◌≢◌, refl, ap, ◌∙◌, Bool, true, false, List, [], ◌∷◌, Option, none, some,
  if◌then◌else◌, ◌==◌, arith, replicate, get_elem?, set_elem, sum, sum-set_elem, Bool-cases, ◌⊎◌,
  inl, inr,
}
use nymph_mqtt.Common.Map.{count, count-append}
use nymph_mqtt.Dispatcher.{
  Place, top, processing, adding, enqueueing, waiting, finished, Worker, System, init, assign,
  add_request_to, push_request, add_worker, run_at, run_worker, stop_worker, Action, request, push,
  work, stop, step, run, new_worker, remove,
}
use nymph_mqtt.Dispatcher.Validity.{
  Fits, FitsAt, IsValid, front, front_slot, init-IsValid, step-IsValid,
}

-- A worker holds its request when it is marked ready or processes it.
abbrev pub holds : Place → Bool → Bool
holds processing ready = true
holds top ready = ready
holds adding ready = ready
holds enqueueing ready = ready
holds waiting ready = ready
holds finished ready = ready

abbrev pub held : ℕ → Worker → ℕ
held r w = if holds w.place w.ready then (if w.request == r then 1 else 0) else 0

-- How often a request stands in the system, in all the places where it can be.
abbrev pub present : ℕ → System → ℕ
present r s =
    count r s.processed + sum (held r) s.all_workers + count r s.requests + count r s.callers

-- How often `addRequest` was called with a request.
abbrev pub submitted : ℕ → List Action → ℕ
submitted r [] = 0
submitted r (request q ∷ more) = (if q == r then 1 else 0) + submitted r more
submitted r (push q ∷ more) = submitted r more
submitted r (work i ∷ more) = submitted r more
submitted r (stop i ∷ more) = submitted r more

abbrev arrives : ℕ → Action → ℕ
arrives r (request q) = if q == r then 1 else 0
arrives r (push q) = 0
arrives r (work i) = 0
arrives r (stop i) = 0

abbrev worker : ℕ → Bool → Bool → Place → Worker
worker r running ready place = record {
  request = r;
  running = running;
  ready = ready;
  place = place;
}

present-add_worker :
    (requests : List ℕ) (running : Bool) (q : ℕ) (s : System) (i r : ℕ)
    → get_elem? s.all_workers i ≡ some (worker r running false adding)
    → s.requests ≡ requests
    → present q (add_worker requests s i (worker r running false adding)) ≡ present q s
present-add_worker [] running q s i r e same =
    omega (arith, sum-set_elem (held q) s.all_workers i _ (worker r running false enqueueing) e)
present-add_worker (next ∷ rest) running q s i r e same = omega (
  arith,
  ap (count q) same,
  sum-set_elem (held q) s.all_workers i _ (worker next running true top) e,
)

-- A step of a worker moves its request, and changes no count.
present-run_at :
    (place : Place) (running ready : Bool) (q : ℕ) (s : System) (i r : ℕ)
    → get_elem? s.all_workers i ≡ some (worker r running ready place)
    → Fits place ready (count i s.workers)
    → present q (run_at place s i (worker r running ready place)) ≡ present q s
present-run_at top true true q s i r e fits =
    omega (arith, sum-set_elem (held q) s.all_workers i _ (worker r true false processing) e)
present-run_at top true false q s i r e fits =
    omega (arith, sum-set_elem (held q) s.all_workers i _ (worker r true false adding) e)
present-run_at top false ready q s i r e fits =
    omega (arith, sum-set_elem (held q) s.all_workers i _ (worker r false ready finished) e)
present-run_at processing running true q s i r e fits = cc
present-run_at processing running false q s i r e fits =
    omega (arith, sum-set_elem (held q) s.all_workers i _ (worker r running false adding) e)
present-run_at adding running true q s i r e fits = cc
present-run_at adding running false q s i r e fits =
    present-add_worker s.requests running q s i r e refl
present-run_at enqueueing running ready q s i r e fits =
    omega (arith, sum-set_elem (held q) s.all_workers i _ (worker r running ready waiting) e)
present-run_at waiting running true q s i r e fits =
    omega (arith, sum-set_elem (held q) s.all_workers i _ (worker r running true top) e)
present-run_at waiting true false q s i r e fits = refl
present-run_at waiting false false q s i r e fits =
    omega (arith, sum-set_elem (held q) s.all_workers i _ (worker r false false finished) e)
present-run_at finished running ready q s i r e fits = refl

present-run_worker :
    (o : Option Worker) (q : ℕ) (s : System) (i : ℕ)
    → get_elem? s.all_workers i ≡ o
    → FitsAt o (count i s.workers)
    → present q (run_worker o s i) ≡ present q s
present-run_worker none q s i e fits = refl
present-run_worker (some w) q s i e fits =
    present-run_at w.place w.running w.ready q s i w.request e fits

present-stop_worker :
    (o : Option Worker) (q : ℕ) (s : System) (i : ℕ)
    → get_elem? s.all_workers i ≡ o
    → present q (stop_worker o s i) ≡ present q s
present-stop_worker none q s i e = refl
present-stop_worker (some w) q s i e =
    omega (arith, sum-set_elem (held q) s.all_workers i w (record w { running = false }) e)

-- To a worker without a request, one is added.
held-set_request :
    (place : Place) (running : Bool) (q : ℕ) (s : System) (i r r' : ℕ)
    → get_elem? s.all_workers i ≡ some (worker r' running false place)
    → place ≢ processing
    → sum (held q) (set_elem s.all_workers i (worker r running true place))
      ≡ (if r == q then 1 else 0) + sum (held q) s.all_workers
held-set_request processing running q s i r r' e idle = absurd (idle refl)
held-set_request place running q s i r r' e idle =
    omega (arith, sum-set_elem (held q) s.all_workers i _ (worker r running true place) e)

count-remove :
    (q r : ℕ) (cs : List ℕ)
    → (count r cs == 0) ≡ false
    → count q (remove r cs) + (if r == q then 1 else 0) ≡ count q cs
count-remove q r [] h = ground arith
count-remove q r (c ∷ cs) h = ground (arith, count-remove q r cs)

present-push_request : (q : ℕ) (s : System) (r : ℕ) → present q (push_request s r) ≡ present q s
present-push_request q s r = elim (Bool-cases (count r s.callers == 0)) [
  | inl absent ↦ rw absent
  | inr there ↦
      rw there (omega (arith, count-remove q r s.callers there, count-append q s.requests (r ∷ [])))
]

not_processing : (p : Place) → (p ≡ waiting) ⊎ (p ≡ finished) → p ≢ processing
not_processing p (inl e) h = cc
not_processing p (inr e) h = cc

present-assign :
    (o : Option Worker) (q : ℕ) (s : System) (i r : ℕ) (rest : List ℕ)
    → get_elem? s.all_workers i ≡ o
    → FitsAt o (1 + count i rest)
    → present q (record (assign o s i r) { workers = rest })
      ≡ (if r == q then 1 else 0) + present q s
present-assign none q s i r rest e fits = absurd (omega arith)
present-assign (some w) q s i r rest e fits =
    let (free, idle, where_) = front w.place w.ready (count i rest) fits in
    let from : get_elem? s.all_workers i ≡ some (worker w.request w.running false w.place) =
      e ∙ ap (λ b. some (worker w.request w.running b w.place)) idle in
    omega (
      arith,
      held-set_request w.place w.running q s i r w.request from (not_processing w.place where_),
    )

present-add_request_to :
    (queue : List ℕ) (q : ℕ) (s : System) (r : ℕ)
    → IsValid s
    → s.workers ≡ queue
    → present q (add_request_to queue s r) ≡ (if r == q then 1 else 0) + present q s
present-add_request_to [] q s r v e = omega arith
present-add_request_to (i ∷ rest) q s r v e =
    present-assign (get_elem? s.all_workers i) q s i r rest refl (front_slot s i rest v e)

present-step :
    (q : ℕ) (s : System) (a : Action)
    → IsValid s
    → present q (step s a) ≡ submitted q (a ∷ []) + present q s
unfolding step
present-step q s (request r) v = omega (arith, present-add_request_to s.workers q s r v refl)
present-step q s (push r) v = omega (arith, present-push_request q s r)
present-step q s (work i) v =
    omega (arith, present-run_worker (get_elem? s.all_workers i) q s i refl (v.slots i))
present-step q s (stop i) v =
    omega (arith, present-stop_worker (get_elem? s.all_workers i) q s i refl)

submitted_head :
    (q : ℕ) (a : Action) (more : List Action)
    → submitted q (a ∷ more) ≡ submitted q (a ∷ []) + submitted q more
submitted_head q (request r) more = omega arith
submitted_head q (push r) more = omega arith
submitted_head q (work i) more = omega arith
submitted_head q (stop i) more = omega arith

present-run_from :
    (q : ℕ) (more : List Action) (s : System)
    → IsValid s
    → present q (run s more) ≡ submitted q more + present q s
unfolding run
present-run_from q [] s v = omega arith
present-run_from q (a ∷ more) s v = omega (
  arith,
  present-run_from q more (step s a) (step-IsValid s a v),
  present-step q s a v,
  submitted_head q a more,
)

nothing_held : (q junk n : ℕ) → sum (held q) (replicate n (new_worker junk)) ≡ 0
nothing_held q junk zero = refl
nothing_held q junk (suc n) = omega (arith, nothing_held q junk n)

-- In every interleaving of any number of workers and callers, each request stands exactly as often as
-- `addRequest` was called with it in the places together: processed, held by a worker, in the queue,
-- or with a caller that waits for the second lock. None is lost or doubled.
pub present-run :
    (q junk n : ℕ) (more : List Action) → present q (run (init junk n) more) ≡ submitted q more
unfolding init
present-run q junk n more =
    omega
      (arith, present-run_from q more (init junk n) (init-IsValid junk n), nothing_held q junk n)
