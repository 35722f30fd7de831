-- ===== src/Client/Lifecycle/Leak.antt =====
-- src/cpp/client.cpp and client_listener.cpp: `shutdown`, which never sets the semaphore.
use nymph_mqtt.Common.{◌⊎◌, inl, inr, ◌≡◌, refl, sym, subst, Bool, true, false, List, [], ◌∷◌}
use nymph_mqtt.Client.Lifecycle.Memory.{
  ClientCall, shuts, stops, shutdown_calls, ListenerLine, at_loop, at_wait, thrown_out, Memory,
  Access, intact, dangling, Turn, client_calls, listener_runs, round_goes_on, remote_closed,
  round_throws, take_turn, and_next, take_turns, connected, listener_round_ends, at_line,
}
use nymph_mqtt.Client.Lifecycle.Dangling.{Early, looping, waiting, out}

-- A suffix of the calls.
data Shutting : List ClientCall → Type 0 where
  both_left : Shutting (stops ∷ shuts ∷ [])
  one_left : Shutting (shuts ∷ [])
  none_left : Shutting []

abbrev Waits : Memory → Type 0
Waits m =
    (calls : List ClientCall) × (line : ListenerLine) × (listen : Bool) × (m
      ≡ at_line calls line listen false)
    × Shutting calls
    × Early line

abbrev Kept : Access → Type 0
Kept (dangling o) = ⊥
Kept (intact m) = Waits m

waits :
    {calls : List ClientCall} {line : ListenerLine} {listen : Bool}
    → Shutting calls
    → Early line
    → Waits (at_line calls line listen false)
waits {calls} {line} {listen} c e = (calls, line, listen, refl, c, e)

client_Kept :
    (calls : List ClientCall) (line : ListenerLine) (listen : Bool)
    → Shutting calls
    → Early line
    → Kept (take_turn client_calls (at_line calls line listen false))
unfolding take_turn
client_Kept calls line l both_left looping = waits one_left looping
client_Kept calls line l both_left waiting = waits one_left waiting
client_Kept calls line l both_left out = waits one_left out
client_Kept calls line l one_left looping = waits none_left looping
client_Kept calls line l one_left waiting = waits none_left waiting
client_Kept calls line l one_left out = waits none_left out
client_Kept calls line l none_left e = waits none_left e

round_Kept :
    {next : ListenerLine} (line : ListenerLine) (calls : List ClientCall) (listen : Bool)
    → Early next
    → Shutting calls
    → Early line
    → Kept (listener_round_ends line next (at_line calls line listen false))
round_Kept line calls true looping c looping = waits c looping
round_Kept line calls true waiting c looping = waits c waiting
round_Kept line calls true out c looping = waits c out
round_Kept line calls false n c looping = waits c looping
round_Kept line calls l n c waiting = waits c waiting
round_Kept line calls l n c out = waits c out

turn_Kept :
    (t : Turn) (calls : List ClientCall) (line : ListenerLine) (listen : Bool)
    → Shutting calls
    → Early line
    → Kept (take_turn t (at_line calls line listen false))
unfolding take_turn
turn_Kept client_calls calls line l c e = client_Kept calls line l c e
turn_Kept listener_runs calls line true c looping = waits c looping
turn_Kept listener_runs calls line false c looping = waits c waiting
turn_Kept listener_runs calls line l c waiting = waits c waiting
turn_Kept listener_runs calls line l c out = waits c out
turn_Kept round_goes_on calls line l c e = round_Kept line calls l looping c e
turn_Kept remote_closed calls line l c e = round_Kept line calls l waiting c e
turn_Kept round_throws calls line l c e = round_Kept line calls l out c e

then_Kept :
    (a : Access) (f : Memory → Access)
    → Kept a
    → ((m : Memory) → Waits m → Kept (f m))
    → Kept (and_next a f)
then_Kept (intact m) f h go = go m h
then_Kept (dangling o) f h go = absurd h

turns_Kept : (turns : List Turn) (m : Memory) → Waits m → Kept (take_turns turns m)
unfolding take_turns
turns_Kept [] m w = w
turns_Kept (t ∷ more) m (calls, line, listen, e, c, early) =
    then_Kept (take_turn t m) (take_turns more)
      (subst (λ n. Kept (take_turn t n)) (sym e) (turn_Kept t calls line listen c early))
      (turns_Kept more)

-- The three objects are there, and the thread of the listener is not at its end.
abbrev pub Leaks : Access → Type 0
Leaks a =
    (m : Memory) × (a ≡ intact m)
    × (m.socket ≡ true)
    × (m.semaphore ≡ true)
    × (m.listener ≡ true)
    × ((m.line ≡ at_loop) ⊎ (m.line ≡ at_wait) ⊎ (m.line ≡ thrown_out))

early_Leaks :
    (calls : List ClientCall) (line : ListenerLine) (listen : Bool)
    → Early line
    → Leaks (intact (at_line calls line listen false))
early_Leaks calls line l looping = (at_line calls at_loop l false, refl, refl, refl, refl, inl refl)
early_Leaks calls line l waiting =
    (at_line calls at_wait l false, refl, refl, refl, refl, inr (inl refl))
early_Leaks calls line l out =
    (at_line calls thrown_out l false, refl, refl, refl, refl, inr (inr refl))

Kept-Leaks : (a : Access) → Kept a → Leaks a
Kept-Leaks (intact m) (calls, line, listen, e, c, early) =
    subst (λ n. Leaks (intact n)) (sym e) (early_Leaks calls line listen early)
Kept-Leaks (dangling o) h = absurd h

-- In every order of the calls of `shutdown` and of the listener's thread, and however long this runs: nothing is
-- used behind its end, and nothing is ever deleted, since nobody sets the semaphore: the listener stays
-- in its loop, waits for the semaphore, or has ended by an exception.
pub take_turns-shutdown : (turns : List Turn) → Leaks (take_turns turns (connected shutdown_calls))
unfolding shutdown_calls
take_turns-shutdown turns =
    Kept-Leaks (take_turns turns (connected shutdown_calls))
      (turns_Kept turns (connected shutdown_calls) (waits both_left looping))
