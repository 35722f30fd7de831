-- ===== src/Client/Handshake.antt =====
-- src/cpp/client.cpp: the wait of `connect` for the answer of the broker, and `connackHandler`, which worker
-- threads call; it takes no lock, so that its lines come between those of `connect` in any order.
pub mod Answers
use nymph_mqtt.Common.{ℕ, Bool, true, false, List, [], ◌∷◌, Option, none, some, if◌then◌else◌, ◌==◌}

-- The members that are written.
pub record NmqttBrokerConnection : Type 0 where
  pub handle : ℕ
  pub session_present : Bool
  pub response_code : ℕ

-- Where the thread of `connect` is: CONNECT is sent; `brokerConn` is set; it waits for the condition; it was
-- woken; the time was over, with `brokerConn` still set; `brokerConn` is cleared.
pub data Place : Type 0 where
  before_wait broker_conn_set waiting woken time_is_up timed_out : Place

-- That place, whether `brokerConn` points to `conn`, and `conn`.
pub record Handshake : Type 0 where
  pub place : Place
  pub broker_conn : Bool
  pub conn : NmqttBrokerConnection

-- The three writes of `connackHandler`, and its signal, which is lost if the thread does not wait.
abbrev pub write_handle : ℕ → Handshake → Handshake
write_handle handle s = record s { conn = record s.conn { handle = handle } }

abbrev pub write_session_present : Bool → Handshake → Handshake
write_session_present session_present s = record s {
  conn = record s.conn { session_present = session_present };
}

abbrev pub write_response_code : ℕ → Handshake → Handshake
write_response_code code s = record s { conn = record s.conn { response_code = code } }

abbrev pub signal : Place → Place
signal before_wait = before_wait
signal broker_conn_set = broker_conn_set
signal waiting = woken
signal woken = woken
signal time_is_up = time_is_up
signal timed_out = timed_out

abbrev pub give_signal : Handshake → Handshake
give_signal s = record s { place = signal s.place }

-- `connackHandler` from its first line to its last, when no other thread comes between them.
unfoldable pub connack_handler : Handshake → ℕ → Bool → ℕ → Handshake
connack_handler s handle session_present code =
    if s.broker_conn
    then give_signal
        (write_response_code code (write_session_present session_present (write_handle handle s)))
    else give_signal s

-- The line of `connackHandler` that a worker comes to, with what it still has to write.
pub data Line : Type 0 where
  idle : Line
  at_test : ℕ → Bool → ℕ → Line
  at_handle : ℕ → Bool → ℕ → Line
  at_session_present : Bool → ℕ → Line
  at_response_code : ℕ → Line
  at_signal : Line

-- A write through `brokerConn`: none if it is a null pointer by now.
abbrev pub write_through : Bool → Line → Handshake → Option (Line × Handshake)
write_through true line s = some (line, s)
write_through false line s = none

abbrev pub handler_line : Line → Handshake → Option (Line × Handshake)
handler_line idle s = some (idle, s)
handler_line (at_test handle session_present code) s =
    some (if s.broker_conn then at_handle handle session_present code else at_signal, s)
handler_line (at_handle handle session_present code) s =
    write_through s.broker_conn (at_session_present session_present code) (write_handle handle s)
handler_line (at_session_present session_present code) s =
    write_through s.broker_conn (at_response_code code) (write_session_present session_present s)
handler_line (at_response_code code) s =
    write_through s.broker_conn at_signal (write_response_code code s)
handler_line at_signal s = some (idle, give_signal s)

-- The lines of `connect`, each of which the thread runs when it has come to it.
abbrev pub set_broker_conn_at : Place → Handshake → Handshake
set_broker_conn_at before_wait s = record s { place = broker_conn_set; broker_conn = true }
set_broker_conn_at _ s = s

abbrev pub begin_wait_at : Place → Handshake → Handshake
begin_wait_at broker_conn_set s = record s { place = waiting }
begin_wait_at _ s = s

abbrev pub time_over_at : Place → Handshake → Handshake
time_over_at waiting s = record s { place = time_is_up }
time_over_at _ s = s

abbrev pub clear_broker_conn_at : Place → Handshake → Handshake
clear_broker_conn_at time_is_up s = record s { place = timed_out; broker_conn = false }
clear_broker_conn_at _ s = s

-- A line of `connect`; a worker, by its number, calls `connackHandler` or runs its next line.
pub data Action : Type 0 where
  sets_broker_conn begins_wait time_over clears_broker_conn : Action
  calls_handler : ℕ → ℕ → Bool → ℕ → Action
  moves : ℕ → Action

pub record Threads : Type 0 where
  pub shared : Handshake
  pub lines : ℕ → Line

pub data State : Type 0 where
  alive : Threads → State
  null_pointer_used : State

abbrev pub set_line : ℕ → Line → (ℕ → Line) → ℕ → Line
set_line i line lines j = if j == i then line else lines j

-- A worker that is busy does not call.
abbrev pub call_line : Line → ℕ → Bool → ℕ → Line
call_line idle handle session_present code = at_test handle session_present code
call_line line handle session_present code = line

abbrev pub moved : Threads → ℕ → Option (Line × Handshake) → State
moved t i none = null_pointer_used
moved t i (some (line, s)) = alive (record { shared = s; lines = set_line i line t.lines })

unfoldable pub step : Threads → Action → State
step t sets_broker_conn = alive (record t { shared = set_broker_conn_at t.shared.place t.shared })
step t begins_wait = alive (record t { shared = begin_wait_at t.shared.place t.shared })
step t time_over = alive (record t { shared = time_over_at t.shared.place t.shared })
step t clears_broker_conn =
    alive (record t { shared = clear_broker_conn_at t.shared.place t.shared })
step t (calls_handler i handle session_present code) =
    alive
      (record t { lines = set_line i (call_line (t.lines i) handle session_present code) t.lines })
step t (moves i) = moved t i (handler_line (t.lines i) t.shared)

unfoldable pub run : State → List Action → State
run s [] = s
run null_pointer_used (a ∷ more) = null_pointer_used
run (alive t) (a ∷ more) = run (step t a) more

-- `brokerConn = 0`, in front of the CONNECT message, with no worker in the handler.
abbrev pub start : NmqttBrokerConnection → Threads
start conn = record {
  shared = record { place = before_wait; broker_conn = false; conn = conn };
  lines = λ i. idle;
}
