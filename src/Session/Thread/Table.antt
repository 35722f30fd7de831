-- ===== src/Session/Thread/Table.antt =====
-- src/cpp/session.cpp: the entry of a session in the table of connections.
use nymph_mqtt.Common.{
  ℕ, ◌+◌, ◌^◌, ◌<◌, ◌≡◌, refl, ap, ◌∙◌, subst, Bool-cases, inl, inr, List, [], ◌∷◌, some,
  if◌then◌else◌,
}
use nymph_mqtt.Message.{NmqttMessage, new_message}
use nymph_mqtt.Message.Exec.{Platform, Exec, ok, failed, out_of_range, undefined}
use nymph_mqtt.Message.Parse.{parse_message}
use nymph_mqtt.Framing.{
  Source, Round, closed, passed_over, endless, whole, overwrite, receive_message,
}
use nymph_mqtt.Server.{Handler}
use nymph_mqtt.ServerConnections.{
  NmqttClientSocket, NmqttClientConnections, merged, add_socket, remove_socket, get_socket,
}
use nymph_mqtt.ServerConnections.Validity.{IsValid}
use nymph_mqtt.ServerConnections.Lookup.{get_socket-add_socket, get_socket-remove_add}
use nymph_mqtt.Session.{
  NmqttSession, Outcome, listening, left, threw, undefined_read, stuck, dispatch, go_on, round,
}
use nymph_mqtt.Session.Thread.{
  SessionThread, Running, in_loop, at_end, ended_by_exception, reads_behind_end, in_endless_loop,
  Event, readable, quiet, throws, stop, clean_up, after_round, session_round, session_step,
  run_session, started,
}

-- The table that the loop does not touch.
abbrev KeepsTable : {S : Type 0} → NmqttClientConnections Handler → Outcome S → Type 0
KeepsTable c (listening t) = t.connections ≡ c
KeepsTable c (left t) = t.connections ≡ c
KeepsTable c (threw t) = t.connections ≡ c
KeepsTable c undefined_read = Unit {0}
KeepsTable c stuck = Unit {0}

-- The client is in the table as long as its session runs, and when an exception ended it, and is taken
-- out at the end.
abbrev InTable : {S : Type 0} → ℕ → NmqttClientConnections Handler → Running S → Type 0
InTable handle c (in_loop t) = t.session.connections ≡ c
InTable handle c (at_end t) = t.connections ≡ remove_socket c handle
InTable handle c (ended_by_exception t) = t.connections ≡ c
InTable handle c reads_behind_end = Unit {0}
InTable handle c in_endless_loop = Unit {0}

module _ {S : Type 0} (src : Source S) (p : Platform) (junk : NmqttMessage) (handle : ℕ) where
  dispatch-KeepsTable :
      (t : NmqttSession S) (m : Exec NmqttMessage) → KeepsTable t.connections (dispatch handle t m)
  dispatch-KeepsTable t (ok msg) = refl
  dispatch-KeepsTable t (failed msg) = refl
  dispatch-KeepsTable t out_of_range = refl
  dispatch-KeepsTable t undefined = tt

  go_on-KeepsTable :
      (t : NmqttSession S) (r : Round S) → KeepsTable t.connections (go_on p junk handle t r)
  go_on-KeepsTable t (closed s) = refl
  go_on-KeepsTable t (passed_over s) = refl
  go_on-KeepsTable t endless = tt
  go_on-KeepsTable t (whole bin_msg s) =
      dispatch-KeepsTable (record t { socket = s })
        (parse_message p (new_message p.host junk) bin_msg)

  round-KeepsTable : (t : NmqttSession S) → KeepsTable t.connections (round src p junk handle t)
  unfolding round
  round-KeepsTable t =
      go_on-KeepsTable
        (record t { header_buff = overwrite (src.receive t.socket 2).0 t.header_buff })
        (receive_message src p.host t.header_buff t.socket)

  after_round-InTable :
      (c : NmqttClientConnections Handler) (o : Outcome S)
      → KeepsTable c o
      → InTable handle c (after_round src p junk handle o)
  after_round-InTable c (listening t) h = h
  after_round-InTable c (left t) h = ap (λ d. remove_socket d handle) h
  after_round-InTable c (threw t) h = h
  after_round-InTable c undefined_read h = tt
  after_round-InTable c stuck h = tt

  session_round-InTable :
      (c : NmqttClientConnections Handler) (e : Event) (t : NmqttSession S)
      → t.connections ≡ c
      → InTable handle c (session_round src p junk handle e t)
  session_round-InTable c readable t h =
      after_round-InTable c (round src p junk handle t)
        (subst (λ d. KeepsTable d (round src p junk handle t)) h (round-KeepsTable t))
  session_round-InTable c quiet t h = h
  session_round-InTable c throws t h = h
  session_round-InTable c stop t h = h

  looped-InTable :
      (c : NmqttClientConnections Handler) (e : Event) (t : SessionThread S)
      → t.session.connections ≡ c
      → InTable handle c (
          if t.listen
          then session_round src p junk handle e t.session
          else clean_up src p junk handle t.session)
  looped-InTable c e t h = elim (Bool-cases t.listen) [
    | inl l ↦ rw l (session_round-InTable c e t.session h)
    | inr l ↦ rw l (ap (λ d. remove_socket d handle) h)
  ]

  session_step-InTable :
      (c : NmqttClientConnections Handler) (e : Event) (r : Running S)
      → InTable handle c r
      → InTable handle c (session_step src p junk handle e r)
  session_step-InTable c stop (in_loop t) h = h
  session_step-InTable c readable (in_loop t) h = looped-InTable c readable t h
  session_step-InTable c quiet (in_loop t) h = looped-InTable c quiet t h
  session_step-InTable c throws (in_loop t) h = looped-InTable c throws t h
  session_step-InTable c readable (at_end t) h = h
  session_step-InTable c quiet (at_end t) h = h
  session_step-InTable c throws (at_end t) h = h
  session_step-InTable c stop (at_end t) h = h
  session_step-InTable c readable (ended_by_exception t) h = h
  session_step-InTable c quiet (ended_by_exception t) h = h
  session_step-InTable c throws (ended_by_exception t) h = h
  session_step-InTable c stop (ended_by_exception t) h = h
  session_step-InTable c readable reads_behind_end h = tt
  session_step-InTable c quiet reads_behind_end h = tt
  session_step-InTable c throws reads_behind_end h = tt
  session_step-InTable c stop reads_behind_end h = tt
  session_step-InTable c readable in_endless_loop h = tt
  session_step-InTable c quiet in_endless_loop h = tt
  session_step-InTable c throws in_endless_loop h = tt
  session_step-InTable c stop in_endless_loop h = tt

  run_session-InTable :
      (c : NmqttClientConnections Handler) (events : List Event) (r : Running S)
      → InTable handle c r
      → InTable handle c (run_session src p junk handle events r)
  unfolding run_session
  run_session-InTable c [] r h = h
  run_session-InTable c (e ∷ more) r h =
      run_session-InTable c more (session_step src p junk handle e r) (session_step-InTable c e r h)

-- What the client finds of its entry in the table that every other session shares.
abbrev pub Entry :
    {S : Type 0} → NmqttClientConnections Handler → NmqttClientSocket Handler → Running S → Type 0
Entry s ns (in_loop t) = get_socket t.session.connections (add_socket s ns).1 ≡ some (merged s ns)
Entry s ns (at_end t) = (j : ℕ) → get_socket t.connections j ≡ get_socket s j
Entry s ns (ended_by_exception t) =
    get_socket t.connections (add_socket s ns).1 ≡ some (merged s ns)
Entry s ns reads_behind_end = Unit
Entry s ns in_endless_loop = Unit

InTable-Entry :
    {S : Type 0} (s : NmqttClientConnections Handler) (ns : NmqttClientSocket Handler)
    (r : Running S)
    → IsValid s
    → s.last_handle + 1 < 2 ^ 64
    → InTable (add_socket s ns).1 (add_socket s ns).0 r
    → Entry s ns r
InTable-Entry s ns (in_loop t) v room h =
    ap (λ c. get_socket c (add_socket s ns).1) h ∙ (get_socket-add_socket s ns v).1
InTable-Entry s ns (at_end t) v room h =
    λ j. ap (λ c. get_socket c j) h ∙ get_socket-remove_add s ns v room j
InTable-Entry s ns (ended_by_exception t) v room h =
    ap (λ c. get_socket c (add_socket s ns).1) h ∙ (get_socket-add_socket s ns v).1
InTable-Entry s ns reads_behind_end v room h = tt
InTable-Entry s ns in_endless_loop v room h = tt

-- A session over a valid table, whatever its socket delivers, however often it throws an exception, and whenever
-- `stop` is called: as long as it is in its loop the table has its client, with the core parameters and the new
-- socket; when it is at the end of `run`, every handle finds what it found before the client came; and when an
-- exception has ended it, the table still has the client.
pub run_session-Entry :
    {S : Type 0} (src : Source S) (p : Platform) (junk : NmqttMessage) (events : List Event)
    (s : NmqttClientConnections Handler) (ns : NmqttClientSocket Handler) (socket : S)
    (buff : List ℕ)
    → IsValid s
    → s.last_handle + 1 < 2 ^ 64
    → Entry s ns (run_session src p junk (add_socket s ns).1 events (started s ns socket buff))
run_session-Entry src p junk events s ns socket buff v room = InTable-Entry s ns _ v room (
    run_session-InTable src p junk (add_socket s ns).1 (add_socket s ns).0 events
      (started s ns socket buff) refl)
