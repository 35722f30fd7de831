-- ===== src/Client/Lifecycle/CleanUp.antt =====
-- src/cpp/client.cpp and client_listener.cpp: what the clean-up of the listener leaves, and when `stop` comes
-- too late for it.
use nymph_mqtt.Common.{◌≡◌, ◌≢◌, refl, ap, ◌∙◌, sym, subst, Bool, true, false, List, [], ◌∷◌, ◌++◌}
use nymph_mqtt.Client.Lifecycle.Memory.{
  ClientCall, sets, stops, disconnect_calls, ListenerLine, at_loop, at_wait, at_delete_socket,
  at_delete_semaphore, at_clear, at_delete_this, at_end, thrown_out, the_listener, Memory, Access,
  intact, dangling, Turn, client_calls, listener_runs, take_turn, and_next, take_turns, connected,
  at_line,
}
use nymph_mqtt.Client.Lifecycle.Dangling.{
  Allowed, Reached, Fine, disconnect_Fine, before, behind, sending, shutting, closing, setting,
  stopping, nothing,
}

-- The listener's thread alone, as long as its clean-up takes from the loop on.
abbrev pub clean_up : List Turn
clean_up =
    listener_runs ∷ listener_runs ∷ listener_runs ∷ listener_runs ∷ listener_runs ∷ listener_runs
    ∷ []

-- The thread is at its end, all three objects are deleted, and the pointer to the semaphore is cleared.
abbrev pub AllDeleted : Access → Type 0
AllDeleted a =
    (u : Memory) × (a ≡ intact u)
    × (u.line ≡ at_end)
    × (u.socket ≡ false)
    × (u.semaphore ≡ false)
    × (u.listener ≡ false)
    × (u.cleared ≡ true)

and_next_assoc :
    (a : Access) (f g : Memory → Access)
    → and_next a (λ m. and_next (f m) g) ≡ and_next (and_next a f) g
and_next_assoc (intact m) f g = refl
and_next_assoc (dangling o) f g = refl

and_next_same :
    (a : Access) (f g : Memory → Access) → ((m : Memory) → f m ≡ g m) → and_next a f ≡ and_next a g
and_next_same (intact m) f g h = h m
and_next_same (dangling o) f g h = refl

take_turns-append :
    (turns more : List Turn) (m : Memory)
    → take_turns (turns ++ more) m ≡ and_next (take_turns turns m) (take_turns more)
unfolding take_turns
take_turns-append [] more m = refl
take_turns-append (t ∷ turns) more m =
    and_next_same (take_turn t m) (take_turns (turns ++ more))
      (λ n. and_next (take_turns turns n) (take_turns more)) (take_turns-append turns more)
    ∙ and_next_assoc (take_turn t m) (take_turns turns) (take_turns more)

at_the_end : (is_set : Bool) → AllDeleted (intact (at_line [] at_end false is_set))
at_the_end s = (at_line [] at_end false s, refl, refl, refl, refl, refl, refl)

cleaned :
    (line : ListenerLine) (is_set : Bool)
    → Allowed [] line false is_set
    → line ≢ thrown_out
    → AllDeleted (take_turns clean_up (at_line [] line false is_set))
unfolding take_turns take_turn
cleaned at_loop true a d = at_the_end false
cleaned at_loop false (before u early e) d = elim u [ ]
cleaned at_loop false (behind k s) d = cc
cleaned at_wait true a d = at_the_end false
cleaned at_wait false (before u early e) d = elim u [ ]
cleaned at_wait false (behind k s) d = cc
cleaned at_delete_socket s a d = at_the_end s
cleaned at_delete_semaphore s a d = at_the_end s
cleaned at_clear s a d = at_the_end s
cleaned at_delete_this s a d = at_the_end s
cleaned at_end s a d = at_the_end s
cleaned thrown_out s a d = absurd (d refl)

-- Nothing is left to call only behind `stop`.
none_left :
    {calls : List ClientCall} {line : ListenerLine} {listen is_set : Bool}
    → Allowed calls line listen is_set
    → calls ≡ []
    → listen ≡ false
none_left (before sending early s) e = cc
none_left (before shutting early s) e = cc
none_left (before closing early s) e = cc
none_left (before setting early s) e = cc
none_left (behind stopping s) e = cc
none_left (behind nothing s) e = refl

cleaned-Reached :
    (m : Memory)
    → Reached m
    → m.calls ≡ []
    → m.line ≢ thrown_out
    → AllDeleted (take_turns clean_up m)
cleaned-Reached m (calls, line, listen, is_set, e, a) left d =
    let none_ : calls ≡ [] = ap (λ (n : Memory). n.calls) (sym e) ∙ left in
    let stopped : listen ≡ false = none_left a none_ in
    let a' : Allowed [] line false is_set =
      subst (λ c. Allowed c line false is_set) none_
        (subst (λ l. Allowed calls line l is_set) stopped a) in
    let e' : m ≡ at_line [] line false is_set =
      e
      ∙ ap (λ c. at_line c line listen is_set) none_
      ∙ ap (λ l. at_line [] line l is_set) stopped in
    subst (λ n. AllDeleted (take_turns clean_up n)) (sym e')
      (cleaned line is_set a' (λ q. d (ap (λ (n : Memory). n.line) e ∙ q)))

-- When `disconnect` is through, in whatever order with the listener's thread, and no round of this threw, six
-- further steps of that thread end it, and the socket, the semaphore and the listener are deleted, each
-- once, with the pointer to the semaphore cleared.
pub take_turns-clean_up :
    (turns : List Turn) (m : Memory)
    → take_turns turns (connected disconnect_calls) ≡ intact m
    → m.calls ≡ []
    → m.line ≢ thrown_out
    → AllDeleted (take_turns (turns ++ clean_up) (connected disconnect_calls))
take_turns-clean_up turns m e left d =
    let start : Memory = connected disconnect_calls in
    subst AllDeleted
      (sym (take_turns-append turns clean_up start ∙ ap (λ a. and_next a (take_turns clean_up)) e))
      (cleaned-Reached m (subst Fine e (disconnect_Fine turns)) left d)

-- `set`, the rest of the listener's thread, and then `stop`.
abbrev pub race : List Turn
race =
    client_calls ∷ listener_runs ∷ listener_runs ∷ listener_runs ∷ listener_runs ∷ listener_runs
    ∷ client_calls ∷ []

raced :
    (line : ListenerLine) (listen is_set : Bool)
    → line ≡ at_wait
    → take_turns race (at_line (sets ∷ stops ∷ []) line listen is_set) ≡ dangling the_listener
unfolding take_turns take_turn
raced line l s e = rw e refl

raced-Reached :
    (m : Memory)
    → Reached m
    → m.calls ≡ sets ∷ stops ∷ []
    → m.line ≡ at_wait
    → take_turns race m ≡ dangling the_listener
raced-Reached m (calls, line, listen, is_set, e, a) left waits =
    ap (take_turns race)
      (e ∙ ap (λ c. at_line c line listen is_set) (ap (λ (n : Memory). n.calls) (sym e) ∙ left))
    ∙ raced line listen is_set (ap (λ (n : Memory). n.line) (sym e) ∙ waits)

-- Whenever the listener has left its loop before `disconnect` comes to `set`, since the remote had disconnected
-- or `shutdown` of the socket looks like it, an order of the lines that are left makes `disconnect` call
-- `stop` of a listener that has deleted itself.
pub take_turns-race :
    (turns : List Turn) (m : Memory)
    → take_turns turns (connected disconnect_calls) ≡ intact m
    → m.calls ≡ sets ∷ stops ∷ []
    → m.line ≡ at_wait
    → take_turns (turns ++ race) (connected disconnect_calls) ≡ dangling the_listener
take_turns-race turns m e left waits =
    take_turns-append turns race (connected disconnect_calls)
    ∙ ap (λ a. and_next a (take_turns race)) e
    ∙ raced-Reached m (subst Fine e (disconnect_Fine turns)) left waits
