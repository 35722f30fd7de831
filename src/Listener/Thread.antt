-- ===== src/Listener/Thread.antt =====
-- src/cpp/client_listener.cpp: the thread of a listener, from its start to the end of its loop.
use nymph_mqtt.Common.{ℕ, ◌+◌, ◌≡◌, refl, Bool, true, false, List, [], ◌∷◌, if◌then◌else◌, arith}
use nymph_mqtt.Message.{NmqttMessage, new_message}
use nymph_mqtt.Message.Exec.{Platform}
use nymph_mqtt.Message.Parse.{parse_message}
use nymph_mqtt.Framing.{
  Source, Round, closed, passed_over, endless, whole, overwrite, receive_message,
}
use nymph_mqtt.Listener.{
  NmqttClientListener, Outcome, listening, left, threw, undefined_read, stuck, hand_over,
}

-- The members `listen` and `init`, and how often `readyCond` was signalled.
pub record ListenerThread (S : Type 0) : Type 0 where
  pub listener : NmqttClientListener S
  pub listen : Bool
  pub init : Bool
  pub signals : ℕ

-- Where the thread is: in its loop; behind it, where it waits for the semaphore of its connection; or ended as a
-- round can end.
pub data Running (S : Type 0) : Type 0 where
  in_loop : ListenerThread S → Running S
  behind_loop : ListenerThread S → Running S
  ended_by_exception : Running S
  reads_behind_end : Running S
  in_endless_loop : Running S

-- What happens next: `poll` finds something to read, or nothing; it or `receiveBytes` throws an exception, which
-- nothing in `run` catches; or `stop` is called.
pub data Event : Type 0 where
  readable quiet throws stop : Event

module _ {S : Type 0} where
  -- The constructor.
  abbrev pub new_thread : NmqttClientListener S → ListenerThread S
  new_thread l = record { listener = l; listen = true; init = true; signals = 0 }

  -- `if (init)`, at the end of a round.
  abbrev pub check_init : ListenerThread S → ListenerThread S
  check_init t = if t.init then record t { init = false; signals = t.signals + 1 } else t

  abbrev pub after_message : ListenerThread S → Outcome S → Running S
  after_message t (listening l) = in_loop (check_init (record t { listener = l }))
  after_message t (left l) = behind_loop (record t { listener = l })
  after_message t (threw l) = ended_by_exception
  after_message t undefined_read = reads_behind_end
  after_message t stuck = in_endless_loop

  -- A remote that disconnected ends the loop with `break`; a single byte begins the next round with
  -- `continue`, past the check of `init`.
  abbrev pub after_receive :
      Platform → NmqttMessage → ℕ → ListenerThread S → NmqttClientListener S → Round S → Running S
  after_receive p junk handle t l (closed s) =
      behind_loop (record t { listener = record l { socket = s } })
  after_receive p junk handle t l (passed_over s) =
      in_loop (record t { listener = record l { socket = s } })
  after_receive p junk handle t l endless = in_endless_loop
  after_receive p junk handle t l (whole bin_msg s) = after_message t (
      hand_over handle (record l { socket = s })
        (parse_message p (new_message p.host junk) bin_msg))

module _ {S : Type 0} (src : Source S) (p : Platform) (junk : NmqttMessage) (handle : ℕ) where
  -- A round, of a thread that listens.
  abbrev pub thread_round : Event → ListenerThread S → Running S
  thread_round readable t =
      after_receive p junk handle t
        (record t.listener {
          header_buff = overwrite (src.receive t.listener.socket 2).0 t.listener.header_buff;
        })
        (receive_message src p.host t.listener.header_buff t.listener.socket)
  thread_round quiet t = in_loop (check_init t)
  thread_round throws t = ended_by_exception
  thread_round stop t = in_loop (record t { listen = false })

  abbrev pub thread_step : Event → Running S → Running S
  thread_step stop (in_loop t) = in_loop (record t { listen = false })
  thread_step readable (in_loop t) = if t.listen then thread_round readable t else behind_loop t
  thread_step quiet (in_loop t) = if t.listen then thread_round quiet t else behind_loop t
  thread_step throws (in_loop t) = if t.listen then thread_round throws t else behind_loop t
  thread_step e (behind_loop t) = behind_loop t
  thread_step e ended_by_exception = ended_by_exception
  thread_step e reads_behind_end = reads_behind_end
  thread_step e in_endless_loop = in_endless_loop

  unfoldable pub run_thread : List Event → Running S → Running S
  run_thread [] r = r
  run_thread (e ∷ more) r = run_thread more (thread_step e r)

  -- The signal was given once, or it is still to be given.
  abbrev pub OneSignal : Running S → Type 0
  OneSignal (in_loop t) = t.signals + (if t.init then 1 else 0) ≡ 1
  OneSignal (behind_loop t) = t.signals + (if t.init then 1 else 0) ≡ 1
  OneSignal ended_by_exception = Unit
  OneSignal reads_behind_end = Unit
  OneSignal in_endless_loop = Unit

  check_init-OneSignal :
      (t : ListenerThread S) → OneSignal (in_loop t) → OneSignal (in_loop (check_init t))
  check_init-OneSignal t h = ground arith

  after_message-OneSignal :
      (t : ListenerThread S) (o : Outcome S) → OneSignal (in_loop t) → OneSignal (after_message t o)
  after_message-OneSignal t (listening l) h = check_init-OneSignal (record t { listener = l }) h
  after_message-OneSignal t (left l) h = h
  after_message-OneSignal t (threw l) h = tt
  after_message-OneSignal t undefined_read h = tt
  after_message-OneSignal t stuck h = tt

  after_receive-OneSignal :
      (t : ListenerThread S) (l : NmqttClientListener S) (r : Round S)
      → OneSignal (in_loop t)
      → OneSignal (after_receive p junk handle t l r)
  after_receive-OneSignal t l (closed s) h = h
  after_receive-OneSignal t l (passed_over s) h = h
  after_receive-OneSignal t l endless h = tt
  after_receive-OneSignal t l (whole bin_msg s) h =
      after_message-OneSignal t
        (hand_over handle (record l { socket = s })
          (parse_message p (new_message p.host junk) bin_msg))
        h

  if-OneSignal :
      (b : Bool) (r q : Running S) → OneSignal r → OneSignal q → OneSignal (if b then r else q)
  if-OneSignal true r q h k = h
  if-OneSignal false r q h k = k

  thread_step-OneSignal : (e : Event) (r : Running S) → OneSignal r → OneSignal (thread_step e r)
  thread_step-OneSignal stop (in_loop t) h = h
  thread_step-OneSignal readable (in_loop t) h =
      if-OneSignal t.listen (thread_round readable t) (behind_loop t)
        (after_receive-OneSignal t
          (record t.listener {
            header_buff = overwrite (src.receive t.listener.socket 2).0 t.listener.header_buff;
          })
          (receive_message src p.host t.listener.header_buff t.listener.socket) h)
        h
  thread_step-OneSignal quiet (in_loop t) h =
      if-OneSignal t.listen (thread_round quiet t) (behind_loop t) (check_init-OneSignal t h) h
  thread_step-OneSignal throws (in_loop t) h =
      if-OneSignal t.listen (thread_round throws t) (behind_loop t) tt h
  thread_step-OneSignal readable (behind_loop t) h = h
  thread_step-OneSignal quiet (behind_loop t) h = h
  thread_step-OneSignal throws (behind_loop t) h = h
  thread_step-OneSignal stop (behind_loop t) h = h
  thread_step-OneSignal readable ended_by_exception h = tt
  thread_step-OneSignal quiet ended_by_exception h = tt
  thread_step-OneSignal throws ended_by_exception h = tt
  thread_step-OneSignal stop ended_by_exception h = tt
  thread_step-OneSignal readable reads_behind_end h = tt
  thread_step-OneSignal quiet reads_behind_end h = tt
  thread_step-OneSignal throws reads_behind_end h = tt
  thread_step-OneSignal stop reads_behind_end h = tt
  thread_step-OneSignal readable in_endless_loop h = tt
  thread_step-OneSignal quiet in_endless_loop h = tt
  thread_step-OneSignal throws in_endless_loop h = tt
  thread_step-OneSignal stop in_endless_loop h = tt

  run_events : (events : List Event) (r : Running S) → OneSignal r → OneSignal (run_thread events r)
  unfolding run_thread
  run_events [] r h = h
  run_events (e ∷ more) r h = run_events more (thread_step e r) (thread_step-OneSignal e r h)

  -- A new listener thread, whatever its socket delivers and whenever `stop` is called: as long as it is in
  -- its loop, or behind it, it has signalled the condition of the thread that started it at most once, and
  -- exactly once if and only if `init` is false.
  pub run_thread-OneSignal :
      (events : List Event) (l : NmqttClientListener S)
      → OneSignal (run_thread events (in_loop (new_thread l)))
  run_thread-OneSignal events l = run_events events (in_loop (new_thread l)) refl
