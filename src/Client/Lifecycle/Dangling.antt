-- ===== src/Client/Lifecycle/Dangling.antt =====
-- src/cpp/client.cpp and client_listener.cpp: `disconnect` and the clean-up of the listener, in every order.
use nymph_mqtt.Common.{◌≡◌, refl, sym, subst, Bool, true, false, List, [], ◌∷◌}
use nymph_mqtt.Client.Lifecycle.Memory.{
  ClientCall, sends, shuts, closes, sets, stops, disconnect_calls, ListenerLine, at_loop, at_wait,
  at_delete_socket, at_delete_semaphore, at_clear, at_delete_this, at_end, thrown_out, the_listener,
  Memory, Access, intact, dangling, Turn, client_calls, listener_runs, round_goes_on, remote_closed,
  round_throws, take_turn, and_next, take_turns, connected, listener_round_ends, at_line, socket_at,
  semaphore_at, listener_at,
}

-- Up to `set`: a suffix of the calls.
pub data Using : List ClientCall → Type 0 where
  sending : Using (sends ∷ shuts ∷ closes ∷ sets ∷ stops ∷ [])
  shutting : Using (shuts ∷ closes ∷ sets ∷ stops ∷ [])
  closing : Using (closes ∷ sets ∷ stops ∷ [])
  setting : Using (sets ∷ stops ∷ [])

pub data Last : List ClientCall → Bool → Type 0 where
  stopping : {listen : Bool} → Last (stops ∷ []) listen
  nothing : Last [] false

-- Not past the wait.
pub data Early : ListenerLine → Type 0 where
  looping : Early at_loop
  waiting : Early at_wait
  out : Early thrown_out

-- The semaphore is still set, where the wait for it is still to come.
abbrev pub SetAt : ListenerLine → Bool → Type 0
SetAt at_loop is_set = is_set ≡ true
SetAt at_wait is_set = is_set ≡ true
SetAt line is_set = Unit {0}

-- Until `set` the listener does not come past its wait, and behind it the client uses the listener only.
pub data Allowed (calls : List ClientCall) (line : ListenerLine) (listen is_set : Bool)
    : Type 0 where
  before : Using calls → Early line → is_set ≡ false → Allowed calls line listen is_set
  behind : Last calls listen → SetAt line is_set → Allowed calls line listen is_set

abbrev pub Reached : Memory → Type 0
Reached m =
    (calls : List ClientCall) × (line : ListenerLine) × (listen : Bool) × (is_set : Bool) × (m
      ≡ at_line calls line listen is_set)
    × Allowed calls line listen is_set

abbrev pub Fine : Access → Type 0
Fine (intact m) = Reached m
Fine (dangling o) = o ≡ the_listener

pub reached :
    {calls : List ClientCall} {line : ListenerLine} {listen is_set : Bool}
    → Allowed calls line listen is_set
    → Reached (at_line calls line listen is_set)
reached {calls} {line} {listen} {is_set} a = (calls, line, listen, is_set, refl, a)

client_Fine :
    (calls : List ClientCall) (line : ListenerLine) (listen is_set : Bool)
    → Allowed calls line listen is_set
    → Fine (take_turn client_calls (at_line calls line listen is_set))
unfolding take_turn
client_Fine calls line l s (before sending looping e) = reached (before shutting looping e)
client_Fine calls line l s (before sending waiting e) = reached (before shutting waiting e)
client_Fine calls line l s (before sending out e) = reached (before shutting out e)
client_Fine calls line l s (before shutting looping e) = reached (before closing looping e)
client_Fine calls line l s (before shutting waiting e) = reached (before closing waiting e)
client_Fine calls line l s (before shutting out e) = reached (before closing out e)
client_Fine calls line l s (before closing looping e) = reached (before setting looping e)
client_Fine calls line l s (before closing waiting e) = reached (before setting waiting e)
client_Fine calls line l s (before closing out e) = reached (before setting out e)
client_Fine calls line l s (before setting looping e) = reached (behind stopping refl)
client_Fine calls line l s (before setting waiting e) = reached (behind stopping refl)
client_Fine calls line l s (before setting out e) = reached (behind stopping tt)
client_Fine calls at_loop l s (behind stopping k) = reached (behind nothing k)
client_Fine calls at_wait l s (behind stopping k) = reached (behind nothing k)
client_Fine calls at_delete_socket l s (behind stopping k) = reached (behind nothing k)
client_Fine calls at_delete_semaphore l s (behind stopping k) = reached (behind nothing k)
client_Fine calls at_clear l s (behind stopping k) = reached (behind nothing k)
client_Fine calls at_delete_this l s (behind stopping k) = reached (behind nothing k)
client_Fine calls at_end l s (behind stopping k) = refl
client_Fine calls thrown_out l s (behind stopping k) = reached (behind nothing k)
client_Fine calls line l s (behind nothing k) = reached (behind nothing k)

-- The wait comes through only when the semaphore is set.
listener_Fine :
    (calls : List ClientCall) (line : ListenerLine) (listen is_set : Bool)
    → Allowed calls line listen is_set
    → Fine (take_turn listener_runs (at_line calls line listen is_set))
unfolding take_turn
listener_Fine calls line true s (before u looping e) = reached (before u looping e)
listener_Fine calls line false s (before u looping e) = reached (before u waiting e)
listener_Fine calls line l false (before u waiting e) = reached (before u waiting e)
listener_Fine calls line l true (before u waiting e) = cc
listener_Fine calls line l s (before u out e) = reached (before u out e)
listener_Fine calls at_loop true s (behind k e) = reached (behind k e)
listener_Fine calls at_loop false s (behind k e) = reached (behind k e)
listener_Fine calls at_wait l true (behind k e) = reached (behind k tt)
listener_Fine calls at_wait l false (behind k e) = cc
listener_Fine calls at_delete_socket l s (behind k e) = reached (behind k tt)
listener_Fine calls at_delete_semaphore l s (behind k e) = reached (behind k tt)
listener_Fine calls at_clear l s (behind k e) = reached (behind k tt)
listener_Fine calls at_delete_this l s (behind k e) = reached (behind k tt)
listener_Fine calls at_end l s (behind k e) = reached (behind k tt)
listener_Fine calls thrown_out l s (behind k e) = reached (behind k tt)

-- A round of the loop, by the line that comes next.
round_Fine :
    {next : ListenerLine} (line : ListenerLine) (calls : List ClientCall) (listen is_set : Bool)
    → Early next
    → Allowed calls line listen is_set
    → Fine (listener_round_ends line next (at_line calls line listen is_set))
round_Fine at_loop calls false s n a = reached a
round_Fine at_loop calls true s looping a = reached a
round_Fine at_loop calls true s waiting (before u looping e) = reached (before u waiting e)
round_Fine at_loop calls true s waiting (behind k e) = reached (behind k e)
round_Fine at_loop calls true s out (before u looping e) = reached (before u out e)
round_Fine at_loop calls true s out (behind k e) = reached (behind k tt)
round_Fine at_wait calls l s n a = reached a
round_Fine at_delete_socket calls l s n a = reached a
round_Fine at_delete_semaphore calls l s n a = reached a
round_Fine at_clear calls l s n a = reached a
round_Fine at_delete_this calls l s n a = reached a
round_Fine at_end calls l s n a = reached a
round_Fine thrown_out calls l s n a = reached a

turn_Fine :
    (t : Turn) (calls : List ClientCall) (line : ListenerLine) (listen is_set : Bool)
    → Allowed calls line listen is_set
    → Fine (take_turn t (at_line calls line listen is_set))
unfolding take_turn
turn_Fine client_calls calls line l s a = client_Fine calls line l s a
turn_Fine listener_runs calls line l s a = listener_Fine calls line l s a
turn_Fine round_goes_on calls line l s a = round_Fine line calls l s looping a
turn_Fine remote_closed calls line l s a = round_Fine line calls l s waiting a
turn_Fine round_throws calls line l s a = round_Fine line calls l s out a

then_Fine :
    (a : Access) (f : Memory → Access)
    → Fine a
    → ((m : Memory) → Reached m → Fine (f m))
    → Fine (and_next a f)
then_Fine (intact m) f h go = go m h
then_Fine (dangling o) f h go = h

turns_Fine : (turns : List Turn) (m : Memory) → Reached m → Fine (take_turns turns m)
unfolding take_turns
turns_Fine [] m r = r
turns_Fine (t ∷ more) m (calls, line, listen, is_set, e, a) =
    then_Fine (take_turn t m) (take_turns more)
      (subst (λ n. Fine (take_turn t n)) (sym e) (turn_Fine t calls line listen is_set a))
      (turns_Fine more)

pub disconnect_Fine : (turns : List Turn) → Fine (take_turns turns (connected disconnect_calls))
unfolding disconnect_calls
disconnect_Fine turns =
    turns_Fine turns (connected disconnect_calls) (reached (before sending looping refl))

-- Each object is there until the line of the listener that deletes it; or the listener was used behind its end.
abbrev pub InOrder : Access → Type 0
InOrder (intact m) =
    (m.socket ≡ socket_at m.line)
    × (m.semaphore ≡ semaphore_at m.line)
    × (m.listener ≡ listener_at m.line)
InOrder (dangling o) = o ≡ the_listener

Fine-InOrder : (a : Access) → Fine a → InOrder a
Fine-InOrder (intact m) (calls, line, listen, is_set, e, a) =
    subst (λ n. InOrder (intact n)) (sym e) (refl, refl, refl)
Fine-InOrder (dangling o) h = h

-- In every order of the calls of `disconnect` and of the listener's thread, whatever its rounds come to: neither
-- the socket nor the semaphore is used after it was deleted, and nothing is deleted twice; each object is
-- there until the listener's line that deletes it; the one object that can be used behind its end is the
-- listener.
pub take_turns-disconnect :
    (turns : List Turn) → InOrder (take_turns turns (connected disconnect_calls))
take_turns-disconnect turns =
    Fine-InOrder (take_turns turns (connected disconnect_calls)) (disconnect_Fine turns)
