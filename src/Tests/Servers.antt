-- ===== src/Tests/Servers.antt =====
-- Runs of the server program.
use nymph_mqtt.Common.{ℕ, ◌≡◌, refl, List, [], ◌∷◌, none}
use nymph_mqtt.Dispatcher
use nymph_mqtt.Server.{Call, returned, null_pointer}
use nymph_mqtt.Server.Running.{NmqttServer, not_bound, started, main, init_server, start, shutdown}
use nymph_mqtt.Tests.Sessions.{Wire, blank, server}

abbrev loaded : NmqttServer Wire
loaded = record {
  timeout = 3000;
  server = none;
  logger = record { priority = 0; calls = [] };
  connections = server;
  dispatcher = Dispatcher.init 0 0;
  net = [];
}

abbrev log_line : ℕ → List ℕ → Wire → Wire
log_line level text wire = (level, text) ∷ wire

abbrev halt : ℕ → Wire → Wire
halt address wire = (address, []) ∷ wire

-- The exit code and what was done.
abbrev done : Call (ℕ × NmqttServer Wire) → Call (ℕ × Wire)
done (returned (code, s)) = returned (code, s.net)
done null_pointer = null_pointer
done Call.bad_function_call = Call.bad_function_call

good_day : done (main halt loaded log_line 4 blank 0 (started 4096)) ≡ returned (0, (4096, []) ∷ [])
unfolding main init_server start shutdown
good_day = refl

-- The port is taken: the program waits for its signal all the same, and then stops what there is not.
port_taken : done (main halt loaded log_line 4 blank 0 not_bound) ≡ null_pointer
unfolding main init_server start shutdown
port_taken = refl
