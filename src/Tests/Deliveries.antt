-- ===== src/Tests/Deliveries.antt =====
-- An instance of the theorem on all the messages of a broker.
use nymph_mqtt.Common.{ℕ, ◌≡◌, refl, List, [], ◌∷◌, arith}
use nymph_mqtt.Common.Map.{find}
use nymph_mqtt.ByteBauble.Endian.{byte_bauble}
use nymph_mqtt.Message.{message_of_type}
use nymph_mqtt.Server.{returned}
use nymph_mqtt.Listener.Thread.{ListenerThread, in_loop, behind_loop, new_thread, run_thread}
use nymph_mqtt.Listener.Deliveries.{
  IsShort, stream_of, rounds_for, process_all, handled, process_all-run_thread,
}
use nymph_mqtt.Tests.Objects.{junk, x86, publisher}
use nymph_mqtt.Tests.Sessions.{by_twos, Wire}
use nymph_mqtt.Tests.Streams.{by_twos_pairs, nines, nines-IsBuffer}
use nymph_mqtt.Tests.Clients.{note, broker}

publisher-IsShort : IsShort x86 publisher
unfolding message_of_type byte_bauble
publisher-IsShort = record {
  is = record { command = refl; host = refl; topic_fits = omega arith; id_fits = omega arith };
  version = refl;
  short = omega arith;
}

both_handled :
    (u : ListenerThread (List ℕ)) × (run_thread by_twos x86 junk 0
        (rounds_for (publisher ∷ publisher ∷ []))
        (in_loop (
          new_thread (record {
            socket = stream_of x86 (publisher ∷ publisher ∷ []);
            header_buff = nines;
            requests = [];
          })))
      ≡ behind_loop u)
    × ((net : Wire)
        → process_all ((0, broker) ∷ []) u.listener.requests net
          ≡ returned (handled note 0 (publisher ∷ publisher ∷ []) net))
unfolding find
both_handled =
    process_all-run_thread by_twos x86 x86 junk 0 (publisher ∷ publisher ∷ [])
      (stream_of x86 (publisher ∷ publisher ∷ [])) nines ((0, broker) ∷ []) broker note refl refl
      (publisher-IsShort, (publisher-IsShort, tt)) by_twos_pairs refl nines-IsBuffer refl refl
