-- ===== src/Session.antt =====
-- src/cpp/session.cpp: the thread of one client of the server.
pub mod Rounds
pub mod Stream
pub mod Answers
pub mod Throws
pub mod Thread
use nymph_mqtt.Common.{ℕ, zero, suc, List, [], ◌∷◌, ◌++◌}
use nymph_mqtt.ByteBauble.Endian.{BbEndianness}
use nymph_mqtt.Message.{NmqttMessage, new_message}
use nymph_mqtt.Message.Exec.{Platform, Exec, ok, failed, out_of_range, undefined}
use nymph_mqtt.Message.Parse.{parse_message}
use nymph_mqtt.Framing.{
  Source, Round, closed, passed_over, endless, whole, overwrite, receive_message,
}
use nymph_mqtt.Server.{Handler, NmqttServerRequest, set_message}
use nymph_mqtt.ServerConnections.{
  NmqttClientSocket, NmqttClientConnections, add_socket, remove_socket,
}

-- The table of connections, the socket, `headerBuff`, and the requests that were given to
-- `Dispatcher::addRequest`, in their order.
pub record NmqttSession (S : Type 0) : Type 0 where
  pub connections : NmqttClientConnections Handler
  pub socket : S
  pub header_buff : List ℕ
  pub requests : List NmqttServerRequest

-- What comes behind a round: the next one, or the end of the loop, of the thread by an exception of
-- `parseMessage`, by a read behind the end of a string, or in the loop around `parseHeader`.
pub data Outcome (S : Type 0) : Type 0 where
  listening : NmqttSession S → Outcome S
  left : NmqttSession S → Outcome S
  threw : NmqttSession S → Outcome S
  undefined_read stuck : Outcome S

module _ {S : Type 0} where
  -- The message that is parsed, well or not, goes to the dispatcher.
  abbrev pub dispatch : ℕ → NmqttSession S → Exec NmqttMessage → Outcome S
  dispatch handle t (ok msg) =
      listening (record t { requests = t.requests ++ (set_message handle msg ∷ []) })
  dispatch handle t (failed msg) =
      listening (record t { requests = t.requests ++ (set_message handle msg ∷ []) })
  dispatch handle t out_of_range = threw t
  dispatch handle t undefined = undefined_read

  abbrev pub go_on : Platform → NmqttMessage → ℕ → NmqttSession S → Round S → Outcome S
  go_on p junk handle t (closed s) = left (record t { socket = s })
  go_on p junk handle t (passed_over s) = listening (record t { socket = s })
  go_on p junk handle t endless = stuck
  go_on p junk handle t (whole bin_msg s) =
      dispatch handle (record t { socket = s }) (parse_message p (new_message p.host junk) bin_msg)

module _ {S : Type 0} (src : Source S) (p : Platform) (junk : NmqttMessage) where
  -- One round of `while (listen)`, when the socket has something to read.
  unfoldable pub round : ℕ → NmqttSession S → Outcome S
  round handle t =
      go_on p junk handle
        (record t { header_buff = overwrite (src.receive t.socket 2).0 t.header_buff })
        (receive_message src p.host t.header_buff t.socket)

  -- The loop, and the clean-up behind it. `fuel` bounds the rounds: a session that still listens
  -- behind them is `listening`.
  unfoldable pub run_loop : ℕ → ℕ → NmqttSession S → Outcome S
  run_loop zero handle t = listening t
  run_loop (suc fuel) handle t = elim (round handle t) [
    | listening u ↦ run_loop fuel handle u
    | left u ↦ left (record u { connections = remove_socket u.connections handle })
    | other ↦ other
  ]

  -- `run`, with the address of the socket and what the memory of `headerBuff` held.
  unfoldable pub run :
      ℕ → NmqttClientConnections Handler → NmqttClientSocket Handler → S → List ℕ → Outcome S
  run fuel s ns socket buff =
      let (s', handle) = add_socket s ns in
      run_loop fuel handle
        (record { connections = s'; socket = socket; header_buff = buff; requests = [] })
