-- ===== src/Client/Lifecycle/Memory.antt =====
-- src/cpp/client.cpp and client_listener.cpp: the objects of one connection, its socket, its semaphore and its
-- listener, between the thread that ends the connection and the thread of the listener, which deletes them.
use nymph_mqtt.Common.{Bool, true, false, List, [], ◌∷◌, if◌then◌else◌}

-- The calls that the client makes through its pointers: `sendBytes`, `shutdown` and `close` of the socket,
-- `set` of the semaphore, and `stop` of the listener.
pub data ClientCall : Type 0 where
  sends shuts closes sets stops : ClientCall

-- `disconnect` of a handle that both maps hold, and `shutdown`, for this connection.
unfoldable pub disconnect_calls : List ClientCall
disconnect_calls = sends ∷ shuts ∷ closes ∷ sets ∷ stops ∷ []

unfoldable pub shutdown_calls : List ClientCall
shutdown_calls = stops ∷ shuts ∷ []

-- The next line of the listener's thread: the test of the loop; the wait for the semaphore; the lines
-- of the clean-up behind it. Or it is at its end, or has ended by an exception.
pub data ListenerLine : Type 0 where
  at_loop at_wait at_delete_socket at_delete_semaphore at_clear at_delete_this : ListenerLine
  at_end thrown_out : ListenerLine

pub data Object : Type 0 where
  the_socket the_semaphore the_listener : Object

-- What is left to call; the line of the listener; `listen`; whether the semaphore is set; and which of the objects
-- are there. `cleared` is whether `nymphSocket->semaphore` is 0.
pub record Memory : Type 0 where
  pub calls : List ClientCall
  pub line : ListenerLine
  pub listen : Bool
  pub is_set : Bool
  pub socket : Bool
  pub semaphore : Bool
  pub listener : Bool
  pub cleared : Bool

-- An object that is not there any more is used, or is deleted again.
pub data Access : Type 0 where
  intact : Memory → Access
  dangling : Object → Access

-- Whose turn it is: the client's next call; a line of the listener; a round of its loop that goes on, that finds
-- the remote disconnected, or that throws.
pub data Turn : Type 0 where
  client_calls listener_runs round_goes_on remote_closed round_throws : Turn

abbrev pub through : Bool → Object → Memory → Access
through b o m = if b then intact m else dangling o

abbrev pub client_call : ClientCall → Memory → Access
client_call sends m = through m.socket the_socket m
client_call shuts m = through m.socket the_socket m
client_call closes m = through m.socket the_socket m
client_call sets m = through m.semaphore the_semaphore (record m { is_set = true })
client_call stops m = through m.listener the_listener (record m { listen = false })

abbrev pub client_turn : List ClientCall → Memory → Access
client_turn [] m = intact m
client_turn (c ∷ more) m = client_call c (record m { calls = more })

-- The wait takes the semaphore.
abbrev pub listener_line : ListenerLine → Memory → Access
listener_line at_loop m =
    through m.listener the_listener (if m.listen then m else record m { line = at_wait })
listener_line at_wait m =
    through m.semaphore the_semaphore
      (if m.is_set then record m { is_set = false; line = at_delete_socket } else m)
listener_line at_delete_socket m =
    through m.socket the_socket (record m { socket = false; line = at_delete_semaphore })
listener_line at_delete_semaphore m =
    through m.semaphore the_semaphore (record m { semaphore = false; line = at_clear })
listener_line at_clear m = intact (record m { cleared = true; line = at_delete_this })
listener_line at_delete_this m =
    through m.listener the_listener (record m { listener = false; line = at_end })
listener_line at_end m = intact m
listener_line thrown_out m = intact m

-- A round polls and reads the socket.
abbrev pub listener_round_ends : ListenerLine → ListenerLine → Memory → Access
listener_round_ends at_loop next m =
    through m.socket the_socket (if m.listen then record m { line = next } else m)
listener_round_ends line next m = intact m

unfoldable pub take_turn : Turn → Memory → Access
take_turn client_calls m = client_turn m.calls m
take_turn listener_runs m = listener_line m.line m
take_turn round_goes_on m = listener_round_ends m.line at_loop m
take_turn remote_closed m = listener_round_ends m.line at_wait m
take_turn round_throws m = listener_round_ends m.line thrown_out m

abbrev pub and_next : Access → (Memory → Access) → Access
and_next (intact m) f = f m
and_next (dangling o) f = dangling o

unfoldable pub take_turns : List Turn → Memory → Access
take_turns [] m = intact m
take_turns (t ∷ more) m = and_next (take_turn t m) (take_turns more)

-- A connection whose listener is in its loop.
abbrev pub connected : List ClientCall → Memory
connected calls = record {
  calls = calls;
  line = at_loop;
  listen = true;
  is_set = false;
  socket = true;
  semaphore = true;
  listener = true;
  cleared = false;
}

-- What is there at a line of the listener.
abbrev pub socket_at : ListenerLine → Bool
socket_at at_delete_semaphore = false
socket_at at_clear = false
socket_at at_delete_this = false
socket_at at_end = false
socket_at line = true

abbrev pub semaphore_at : ListenerLine → Bool
semaphore_at at_clear = false
semaphore_at at_delete_this = false
semaphore_at at_end = false
semaphore_at line = true

abbrev pub listener_at : ListenerLine → Bool
listener_at at_end = false
listener_at line = true

abbrev pub cleared_at : ListenerLine → Bool
cleared_at at_delete_this = true
cleared_at at_end = true
cleared_at line = false

abbrev pub at_line : List ClientCall → ListenerLine → Bool → Bool → Memory
at_line calls line listen is_set = record {
  calls = calls;
  line = line;
  listen = listen;
  is_set = is_set;
  socket = socket_at line;
  semaphore = semaphore_at line;
  listener = listener_at line;
  cleared = cleared_at line;
}
