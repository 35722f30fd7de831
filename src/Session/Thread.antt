-- ===== src/Session/Thread.antt =====
-- src/cpp/session.cpp: the thread of a session with `stop`, with rounds in which nothing comes, and with the
-- exceptions of its socket.
pub mod Table
pub mod Loop
use nymph_mqtt.Common.{
  ℕ, zero, suc, ◌+◌, ◌^◌, ◌<◌, ◌≡◌, refl, ap, ◌∙◌, sym, subst, Bool, Bool-cases, inl, inr, true,
  false, List, [], ◌∷◌, some, if◌then◌else◌,
}
use nymph_mqtt.Message.{NmqttMessage, new_message}
use nymph_mqtt.Message.Exec.{Platform, Exec, ok, failed, out_of_range, undefined}
use nymph_mqtt.Message.Parse.{parse_message}
use nymph_mqtt.Framing.{
  Source, Round, closed, passed_over, endless, whole, overwrite, receive_message,
}
use nymph_mqtt.Server.{Handler}
use nymph_mqtt.ServerConnections.{
  NmqttClientSocket, NmqttClientConnections, merged, add_socket, remove_socket, get_socket,
}
use nymph_mqtt.ServerConnections.Validity.{IsValid}
use nymph_mqtt.ServerConnections.Lookup.{get_socket-add_socket, get_socket-remove_add}
use nymph_mqtt.Session.{
  NmqttSession, Outcome, listening, left, threw, undefined_read, stuck, dispatch, go_on, round,
  run_loop,
}

-- The session and its member `listen`.
pub record SessionThread (S : Type 0) : Type 0 where
  pub session : NmqttSession S
  pub listen : Bool

-- In the loop; at the end of `run`; or ended as a round can end.
pub data Running (S : Type 0) : Type 0 where
  in_loop : SessionThread S → Running S
  at_end : NmqttSession S → Running S
  ended_by_exception : NmqttSession S → Running S
  reads_behind_end in_endless_loop : Running S

-- A round whose `poll` finds something to read, or nothing, or in which `poll` or `receiveBytes` throws an exception,
-- which nothing in `run` catches; or a call of `stop`.
pub data Event : Type 0 where
  readable quiet throws stop : Event

module _ {S : Type 0} (src : Source S) (p : Platform) (junk : NmqttMessage) (handle : ℕ) where
  abbrev pub clean_up : NmqttSession S → Running S
  clean_up t = at_end (record t { connections = remove_socket t.connections handle })

  abbrev pub after_round : Outcome S → Running S
  after_round (listening t) = in_loop (record { session = t; listen = true })
  after_round (left t) = clean_up t
  after_round (threw t) = ended_by_exception t
  after_round undefined_read = reads_behind_end
  after_round stuck = in_endless_loop

  -- A round of a session that listens.
  abbrev pub session_round : Event → NmqttSession S → Running S
  session_round readable t = after_round (round src p junk handle t)
  session_round quiet t = in_loop (record { session = t; listen = true })
  session_round throws t = ended_by_exception t
  session_round stop t = in_loop (record { session = t; listen = false })

  abbrev pub session_step : Event → Running S → Running S
  session_step stop (in_loop t) = in_loop (record t { listen = false })
  session_step e (in_loop t) = if t.listen then session_round e t.session else clean_up t.session
  session_step e r = r

  unfoldable pub run_session : List Event → Running S → Running S
  run_session [] r = r
  run_session (e ∷ more) r = run_session more (session_step e r)

-- `run` of a new session, up to its loop.
abbrev pub started :
    {S : Type 0}
    → NmqttClientConnections Handler
    → NmqttClientSocket Handler
    → S
    → List ℕ
    → Running S
started s ns socket buff = in_loop (record {
  session = record {
    connections = (add_socket s ns).0;
    socket = socket;
    header_buff = buff;
    requests = [];
  };
  listen = true;
})
