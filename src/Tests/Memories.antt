-- ===== src/Tests/Memories.antt =====
-- Runs of the end of a connection, and instances of its theorems.
use nymph_mqtt.Common.{◌≡◌, refl, true, false, List, [], ◌∷◌, ◌++◌}
use nymph_mqtt.Client.Lifecycle.Memory.{
  disconnect_calls, shutdown_calls, sets, stops, at_loop, at_wait, the_listener, dangling, Turn,
  client_calls, listener_runs, round_goes_on, remote_closed, take_turn, take_turns, connected,
  at_line,
}
use nymph_mqtt.Client.Lifecycle.Dangling.{InOrder, take_turns-disconnect}
use nymph_mqtt.Client.Lifecycle.CleanUp.{
  AllDeleted, clean_up, race, take_turns-clean_up, take_turns-race,
}
use nymph_mqtt.Client.Lifecycle.Leak.{Leaks, take_turns-shutdown}

-- All calls of `disconnect`, while the listener goes on.
abbrev whole_disconnect : List Turn
whole_disconnect =
    client_calls ∷ round_goes_on ∷ client_calls ∷ client_calls ∷ client_calls ∷ client_calls ∷ []

-- The broker disconnects first.
abbrev after_remote : List Turn
after_remote = remote_closed ∷ client_calls ∷ client_calls ∷ client_calls ∷ []

gone_by_lines : InOrder (take_turns whole_disconnect (connected disconnect_calls))
gone_by_lines = take_turns-disconnect whole_disconnect

cleaned_up : AllDeleted (take_turns (whole_disconnect ++ clean_up) (connected disconnect_calls))
unfolding take_turns take_turn disconnect_calls
cleaned_up =
    take_turns-clean_up whole_disconnect (at_line [] at_loop false true) refl refl (λ e. cc)

stop_too_late :
    take_turns (after_remote ++ race) (connected disconnect_calls) ≡ dangling the_listener
unfolding take_turns take_turn disconnect_calls
stop_too_late =
    take_turns-race after_remote (at_line (sets ∷ stops ∷ []) at_wait true false) refl refl refl

all_kept : Leaks (
    take_turns
      (client_calls ∷ client_calls ∷ listener_runs ∷ listener_runs ∷ [])
      (connected shutdown_calls))
all_kept = take_turns-shutdown (client_calls ∷ client_calls ∷ listener_runs ∷ listener_runs ∷ [])
