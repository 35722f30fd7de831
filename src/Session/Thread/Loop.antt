-- ===== src/Session/Thread/Loop.antt =====
-- src/cpp/session.cpp: the loop of a session on fuel, and its thread.
use nymph_mqtt.Common.{ℕ, zero, suc, ◌≡◌, refl, ap, ◌∙◌, true, List, [], ◌∷◌}
use nymph_mqtt.Message.{NmqttMessage}
use nymph_mqtt.Message.Exec.{Platform}
use nymph_mqtt.Framing.{Source}
use nymph_mqtt.ServerConnections.{remove_socket}
use nymph_mqtt.Session.{
  NmqttSession, Outcome, listening, left, threw, undefined_read, stuck, round, run_loop,
}
use nymph_mqtt.Session.Thread.{
  Running, in_loop, at_end, ended_by_exception, reads_behind_end, in_endless_loop, Event, readable,
  clean_up, after_round, session_step, run_session,
}

abbrev pub readable_rounds : ℕ → List Event
readable_rounds zero = []
readable_rounds (suc n) = readable ∷ readable_rounds n

module _ {S : Type 0} (src : Source S) (p : Platform) (junk : NmqttMessage) (handle : ℕ) where
  -- The rounds of `run_loop`, each of which finds something to read.
  abbrev pub loop_end : Outcome S → Running S
  loop_end (listening t) = in_loop (record { session = t; listen = true })
  loop_end (left t) = at_end t
  loop_end (threw t) = ended_by_exception t
  loop_end undefined_read = reads_behind_end
  loop_end stuck = in_endless_loop

  ended_stays :
      (fuel : ℕ) (r : Running S)
      → session_step src p junk handle readable r ≡ r
      → run_session src p junk handle (readable_rounds fuel) r ≡ r
  unfolding run_session
  ended_stays zero r h = refl
  ended_stays (suc fuel) r h =
      ap (run_session src p junk handle (readable_rounds fuel)) h ∙ ended_stays fuel r h

  -- The loop that `Session` runs on fuel is the run in which every `poll` finds something to read.
  pub run_session-run_loop :
      (fuel : ℕ) (t : NmqttSession S)
      → run_session src p junk handle
          (readable_rounds fuel)
          (in_loop (record { session = t; listen = true }))
        ≡ loop_end (run_loop src p junk fuel handle t)
  unfolding run_session run_loop
  run_session-run_loop zero t = refl
  run_session-run_loop (suc fuel) t =
      elim (round src p junk handle t)
        as (λ o.
          run_session src p junk handle (readable_rounds fuel) (after_round src p junk handle o)
          ≡ loop_end (elim o as (λ x. Outcome S) [
            | listening u ↦ run_loop src p junk fuel handle u
            | left u ↦ left (record u { connections = remove_socket u.connections handle })
            | threw u ↦ threw u
            | undefined_read ↦ undefined_read
            | stuck ↦ stuck
          ])) [
            | listening u ↦ run_session-run_loop fuel u
            | left u ↦ ended_stays fuel (clean_up src p junk handle u) refl
            | threw u ↦ ended_stays fuel (ended_by_exception u) refl
            | undefined_read ↦ ended_stays fuel reads_behind_end refl
            | stuck ↦ ended_stays fuel in_endless_loop refl
          ]
