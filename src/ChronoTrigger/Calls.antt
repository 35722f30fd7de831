-- ===== src/ChronoTrigger/Calls.antt =====
-- How often the callback is called.
use nymph_mqtt.Common.{
  ℕ, ◌+◌, ◌≤◌, ◌≡◌, refl, ap, ◌∙◌, Bool, true, false, List, [], ◌∷◌, if◌then◌else◌, arith,
}
use nymph_mqtt.ChronoTrigger.{
  ChronoTrigger, begin, Action, times_out, wakes_up, restart, finish, stop, act, acts,
}

timer : Bool → Bool → Bool → Bool → ℕ → Bool → ChronoTrigger
timer running signaled restarting stopping calls looping = record {
  running = running;
  signaled = signaled;
  restarting = restarting;
  stopping = stopping;
  calls = calls;
  looping = looping;
}

-- A single-shot timer that still loops has not called back, and else it has at most once.
abbrev IsSingle : ℕ → Bool → Type 0
IsSingle calls looping = calls + (if looping then 1 else 0) ≤ 1

act-IsSingle :
    (a : Action) (running signaled restarting stopping looping : Bool) (calls : ℕ)
    → IsSingle calls looping
    → let t = act true (timer running signaled restarting stopping calls looping) a in
      IsSingle t.calls t.looping
unfolding act timer
act-IsSingle times_out running signaled true stopping true calls h = h
act-IsSingle times_out running signaled false true true calls h = omega arith
act-IsSingle times_out running signaled false false true calls h = omega arith
act-IsSingle times_out running signaled restarting stopping false calls h = h
act-IsSingle wakes_up running false restarting stopping true calls h = h
act-IsSingle wakes_up running true true stopping true calls h = h
act-IsSingle wakes_up running true false true true calls h = omega arith
act-IsSingle wakes_up running true false false true calls h = omega arith
act-IsSingle wakes_up running signaled restarting stopping false calls h = h
act-IsSingle restart running signaled restarting stopping looping calls h = h
act-IsSingle finish running signaled restarting stopping looping calls h = h
act-IsSingle stop running signaled restarting stopping looping calls h = h

acts-IsSingle :
    (more : List Action) (t : ChronoTrigger)
    → IsSingle t.calls t.looping
    → IsSingle (acts true t more).calls (acts true t more).looping
unfolding acts timer
acts-IsSingle [] t h = h
acts-IsSingle (a ∷ more) t h =
    acts-IsSingle more (act true t a)
      (act-IsSingle a t.running t.signaled t.restarting t.stopping t.looping t.calls h)

-- A single-shot timer calls its callback at most once, whatever restart, finish and stop are called in
-- whatever order between its rounds, however its waits end.
pub calls-acts : (more : List Action) → (acts true begin more).calls ≤ 1
unfolding begin
calls-acts more = let h = acts-IsSingle more begin (omega arith) in omega arith

-- Actions without `restart`.
abbrev pub WithoutRestart : List Action → Type 0
WithoutRestart [] = Unit {0}
WithoutRestart (times_out ∷ more) = WithoutRestart more
WithoutRestart (wakes_up ∷ more) = WithoutRestart more
WithoutRestart (restart ∷ more) = ⊥
WithoutRestart (finish ∷ more) = WithoutRestart more
WithoutRestart (stop ∷ more) = WithoutRestart more

quiet :
    (more : List Action) (single running signaled looping : Bool) (calls : ℕ)
    → WithoutRestart more
    → (acts single (timer running signaled false true calls looping) more).calls ≡ calls
unfolding acts act timer
quiet [] single running signaled looping calls h = refl
quiet (times_out ∷ more) single running signaled true calls h =
    quiet more single running signaled false calls h
quiet (times_out ∷ more) single running signaled false calls h =
    quiet more single running signaled false calls h
quiet (wakes_up ∷ more) single running true true calls h =
    quiet more single running false false calls h
quiet (wakes_up ∷ more) single running false true calls h =
    quiet more single running false true calls h
quiet (wakes_up ∷ more) single running signaled false calls h =
    quiet more single running signaled false calls h
quiet (restart ∷ more) single running signaled looping calls h = absurd h
quiet (finish ∷ more) single running signaled looping calls h =
    quiet more single false signaled looping calls h
quiet (stop ∷ more) single running signaled looping calls h =
    quiet more single running true looping calls h

-- After `stop`, when no restart was pending and none is asked for, the callback is not called again.
pub acts-stop :
    (single : Bool) (t : ChronoTrigger) (more : List Action)
    → t.restarting ≡ false
    → WithoutRestart more
    → (acts single (act single t stop) more).calls ≡ t.calls
unfolding act timer
acts-stop single t more none h =
    ap (λ b. (acts single (timer t.running true b true t.calls t.looping) more).calls) none
    ∙ quiet more single t.running true t.looping t.calls h
