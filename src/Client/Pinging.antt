-- ===== src/Client/Pinging.antt =====
-- src/cpp/client.cpp: the timer of a connected client, whose callback sends a message, and so restarts the timer.
use nymph_mqtt.Common.{
  ℕ, zero, suc, ◌+◌, ◌*◌, ◌≡◌, refl, ap, ◌∙◌, Bool, true, false, List, [], ◌∷◌, some, arith,
}
use nymph_mqtt.Common.Map.{find}
use nymph_mqtt.Message.{NmqttMessage, mqtt_pingreq, message_of_type, packet_type_value}
use nymph_mqtt.Message.Exec.{Platform}
use nymph_mqtt.Message.Serialize.{serialize}
use nymph_mqtt.Message.Serialize.Short.{serialize_bare}
use nymph_mqtt.Server.{Sent, sent}
use nymph_mqtt.Client.Sending.{after_send_all}
use nymph_mqtt.Client.{NmqttClient, lock, send_through, client_send_message, client_pingreq_handler}
use nymph_mqtt.ChronoTrigger.{begin}
use nymph_mqtt.ChronoTrigger.Thread.{
  Place, not_joinable, waiting, calling, TimerThread, Event, begins, start, times_out, returns,
  restart, State, alive, timer_step, and_then, run_timer, set_callback,
}

module _ {N : Type 0} (send_bytes : ℕ → List ℕ → N → Sent × N) (p : Platform)
    (junk : NmqttMessage) where
  -- `pingreqHandler`, bound to the client, as the callback.
  abbrev pub ping : ℕ → NmqttClient × N → NmqttClient × N
  ping t (c, net) = let r = client_pingreq_handler send_bytes p junk c t net in (r.client, r.net)

  -- What the callback does to the timer, by what `sendMessage` returns, and its end.
  abbrev pub callback_ends : Bool → List Event
  callback_ends true = restart ∷ returns ∷ []
  callback_ends false = returns ∷ []

  abbrev pub end_callback : Place → Bool → TimerThread (NmqttClient × N) → State (NmqttClient × N)
  end_callback calling value t = run_timer (callback_ends value) t
  end_callback place value t = alive t

  -- An interval in which no other thread uses the timer; nothing waits when the callback signals.
  unfoldable pub pass_interval : TimerThread (NmqttClient × N) → State (NmqttClient × N)
  pass_interval t =
      let r = client_pingreq_handler send_bytes p junk t.net.0 t.user_data t.net.1 in
      and_then (timer_step times_out t) (λ u. end_callback u.place r.value u)

  unfoldable pub pass_intervals : ℕ → TimerThread (NmqttClient × N) → State (NmqttClient × N)
  pass_intervals zero t = alive t
  pass_intervals (suc n) t = and_then (pass_interval t) (pass_intervals n)

  -- The network behind a number of PINGREQ packets.
  abbrev pub pinged : ℕ → ℕ → N → N
  pinged socket zero net = net
  pinged socket (suc n) net = pinged socket n (send_bytes socket (0xC0 ∷ 0x00 ∷ []) net).1

  pingreq_bytes : (serialize p (message_of_type p.host junk mqtt_pingreq)).0 ≡ 0xC0 ∷ 0x00 ∷ []
  unfolding message_of_type packet_type_value
  pingreq_bytes =
      serialize_bare p (message_of_type p.host junk mqtt_pingreq) mqtt_pingreq refl tt refl

  pub ping_sent :
      (c : NmqttClient) (handle socket : ℕ) (net : N)
      → find handle c.sockets ≡ some socket
      → (send_bytes socket (0xC0 ∷ 0x00 ∷ []) net).0 ≡ sent 2
      → client_pingreq_handler send_bytes p junk c handle net ≡ record {
        value = true;
        client = record c { restarts = c.restarts + 1 };
        net = (send_bytes socket (0xC0 ∷ 0x00 ∷ []) net).1;
      }
  unfolding client_pingreq_handler client_send_message
  ping_sent c handle socket net known all =
      let bytes : List ℕ = 0xC0 ∷ 0x00 ∷ [] in
      ap (λ b. send_through send_bytes (find handle c.sockets) (lock c) b net) pingreq_bytes
      ∙ ap (λ o. send_through send_bytes o (lock c) bytes net) known
      ∙ after_send_all c bytes (send_bytes socket bytes net) all

  -- The timer of the client, in its wait.
  abbrev pinger : ℕ → ℕ → Bool → Bool → NmqttClient → N → TimerThread (NmqttClient × N)
  pinger handle calls signaled restarting c net = record {
    place = waiting;
    single = false;
    callback = some ping;
    user_data = handle;
    timer = record {
      running = true;
      signaled = signaled;
      restarting = restarting;
      stopping = false;
      calls = calls;
      looping = true;
    };
    net = (c, net);
  }

  with_ping :
      (handle calls : ℕ) (signaled : Bool) (c d : NmqttClient) (net after : N)
      → client_pingreq_handler send_bytes p junk c handle net
        ≡ record { value = true; client = d; net = after }
      → pass_interval (pinger handle calls signaled false c net)
        ≡ alive (pinger handle (calls + 1) true true d after)
  unfolding pass_interval timer_step run_timer
  with_ping handle calls s c d net after e = rw e refl

  without_ping :
      (handle calls : ℕ) (signaled : Bool) (c : NmqttClient) (net : N)
      → pass_interval (pinger handle calls signaled true c net)
        ≡ alive (pinger handle calls false false c net)
  unfolding pass_interval timer_step
  without_ping handle calls s c net = refl

  pass_two :
      (n handle socket calls : ℕ) (signaled : Bool) (c : NmqttClient) (net : N)
      → find handle c.sockets ≡ some socket
      → (send_bytes socket (0xC0 ∷ 0x00 ∷ []) net).0 ≡ sent 2
      → pass_intervals (suc (suc n)) (pinger handle calls signaled false c net)
        ≡ pass_intervals n (
            pinger handle
              (calls + 1)
              false
              false
              (record c { restarts = c.restarts + 1 })
              (send_bytes socket (0xC0 ∷ 0x00 ∷ []) net).1)
  unfolding pass_intervals
  pass_two n handle socket calls s c net known all =
      let d : NmqttClient = record c { restarts = c.restarts + 1 } in
      let after : N = (send_bytes socket (0xC0 ∷ 0x00 ∷ []) net).1 in
      ap (λ o. and_then o (pass_intervals (suc n)))
        (with_ping handle calls s c d net after (ping_sent c handle socket net known all))
      ∙ ap (λ o. and_then o (pass_intervals n)) (without_ping handle (calls + 1) true d after)

  pass_all :
      (n handle socket calls : ℕ) (signaled : Bool) (c : NmqttClient) (net : N)
      → find handle c.sockets ≡ some socket
      → ((m : N) → (send_bytes socket (0xC0 ∷ 0x00 ∷ []) m).0 ≡ sent 2)
      → (s : Bool) × (pass_intervals (2 * n) (pinger handle calls signaled false c net)
          ≡ alive (
              pinger handle
                (calls + n)
                s
                false
                (record c { restarts = c.restarts + n })
                (pinged socket n net)))
  unfolding pass_intervals
  pass_all zero handle socket calls s c net known all =
      let none_ : (k : ℕ) → k + 0 ≡ k = λ k. omega arith in
      (s, rw (none_ calls, none_ c.restarts) refl)
  pass_all (suc n) handle socket calls s c net known all =
      let d : NmqttClient = record c { restarts = c.restarts + 1 } in
      let after : N = (send_bytes socket (0xC0 ∷ 0x00 ∷ []) net).1 in
      let (s', rest) = pass_all n handle socket (calls + 1) false d after known all in
      let twice : 2 * suc n ≡ suc (suc (2 * n)) = omega arith in
      let more : (k : ℕ) → k + 1 + n ≡ k + suc n = λ k. omega arith in
      (
        s',
        ap (λ k. pass_intervals k (pinger handle calls s false c net)) twice
            ∙ pass_two (2 * n) handle socket calls s c net known (all net)
            ∙ rest
            ∙ rw (more calls, more c.restarts) refl,
      )

  -- Of a client whose connection is there and sends all bytes, when the ping timer is started as `connect` does it
  -- and no other thread uses it: 2 n intervals make n PINGREQ packets, one in every second interval, since
  -- `sendMessage` restarts the timer from the callback and the next interval goes by for that; the client
  -- only counts the restarts, and the timer is in its wait again.
  pub pass_intervals-pinged :
      (n handle socket : ℕ) (t : TimerThread (NmqttClient × N))
      → t.place ≡ not_joinable
      → find handle t.net.0.sockets ≡ some socket
      → ((m : N) → (send_bytes socket (0xC0 ∷ 0x00 ∷ []) m).0 ≡ sent 2)
      → (u : TimerThread (NmqttClient × N)) × (and_then
            (run_timer (start false ∷ begins ∷ []) (set_callback ping handle t))
            (pass_intervals (2 * n))
          ≡ alive u)
        × (u.place ≡ waiting)
        × (u.timer.calls ≡ t.timer.calls + n)
        × (u.net.0 ≡ record t.net.0 { restarts = t.net.0.restarts + n })
        × (u.net.1 ≡ pinged socket n t.net.1)
  unfolding run_timer timer_step set_callback begin
  pass_intervals-pinged n handle socket t idle known all =
      let (s, passed) = pass_all n handle socket t.timer.calls false t.net.0 t.net.1 known all in
      (
        pinger handle (t.timer.calls + n) s false
            (record t.net.0 { restarts = t.net.0.restarts + n }) (pinged socket n t.net.1),
        rw idle passed,
        refl,
        refl,
        refl,
        refl,
      )
