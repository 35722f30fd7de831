-- ===== src/Server/Running.antt =====
-- src/cpp/server.cpp and src/server/nmqtt_server.cpp: the server from its start to its end.
use nymph_mqtt.Common.{ℕ, Bool, true, false, List, Option, none, some}
use nymph_mqtt.Dispatcher
use nymph_mqtt.Dispatcher.{System}
use nymph_mqtt.Logger.{NymphLogger, set_logger, log_level_value, nymph_log_level_trace}
use nymph_mqtt.Server.{Handler, Call, returned, null_pointer, server_init}
use nymph_mqtt.ServerConnections.{NmqttClientSocket, NmqttClientConnections}

-- The static members that the calls below use: of the server (`server` is the address of the TCP server, if
-- there is one), the logger, the table of connections and the dispatcher; and what the sockets act on.
pub record NmqttServer (N : Type 0) : Type 0 where
  pub timeout : ℕ
  pub server : Option ℕ
  pub logger : NymphLogger N
  pub connections : NmqttClientConnections Handler
  pub dispatcher : System
  pub net : N

-- `init`, the first call of it. `threads` is `hardware_concurrency`; `ns` and `junk` are what the memory of
-- the client socket and of the workers held.
unfoldable pub init_server :
    {N : Type 0}
    → NmqttServer N
    → (ℕ → List ℕ → N → N)
    → ℕ
    → ℕ
    → ℕ
    → NmqttClientSocket Handler
    → ℕ
    → Bool × NmqttServer N
init_server s logger level timeout threads ns junk = (
  true,
  record s {
    timeout = timeout;
    logger = set_logger s.logger logger level;
    connections = server_init s.connections ns;
    dispatcher = Dispatcher.init junk threads;
  },
)

-- What the calls of Poco in `start` come to: all is well, or there is an exception before the TCP server is
-- made, or from its `start`.
pub data Started : Type 0 where
  started : ℕ → Started
  not_bound : Started
  not_started : ℕ → Started

unfoldable pub start : {N : Type 0} → NmqttServer N → Started → Bool × NmqttServer N
start s (started server) = (true, record s { server = some server })
start s not_bound = (false, s)
start s (not_started server) = (false, record s { server = some server })

-- `shutdown` uses the pointer to the TCP server.
abbrev pub stop_server :
    {N : Type 0} → (ℕ → N → N) → Option ℕ → NmqttServer N → Call (Bool × NmqttServer N)
stop_server stop none s = null_pointer
stop_server stop (some server) s = returned (true, record s { net = stop server s.net })

unfoldable pub shutdown : {N : Type 0} → (ℕ → N → N) → NmqttServer N → Call (Bool × NmqttServer N)
shutdown stop s = stop_server stop s.server s

abbrev pub exit_code : {A : Type 0} → Call (Bool × A) → Call (ℕ × A)
exit_code (returned (good, s)) = returned (0, s)
exit_code null_pointer = null_pointer
exit_code Call.bad_function_call = Call.bad_function_call

-- `main` of the server program, when a signal comes while it waits for one. It uses none of the results.
unfoldable pub main :
    {N : Type 0}
    → (ℕ → N → N)
    → NmqttServer N
    → (ℕ → List ℕ → N → N)
    → ℕ
    → NmqttClientSocket Handler
    → ℕ
    → Started
    → Call (ℕ × NmqttServer N)
main stop s log_function threads ns junk result =
    let (_, s1) =
      init_server s log_function (log_level_value nymph_log_level_trace) 5000 threads ns junk in
    let (_, s2) = start s1 result in exit_code (shutdown stop s2)
