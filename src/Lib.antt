-- ===== src/Lib.antt =====
-- Verification library of NymphMQTT, an MQTT client and server library in C++.
--
-- The library is in src/cpp, and a server program in src/server. `ByteBauble` (bytebauble.h,
-- bytebauble.cpp) converts byte orders and packs the variable-length integers of MQTT. `NmqttMessage` (message.h, message.cpp) is one MQTT message:
-- `parseMessage` reads it from a string of bytes, `parseHeader` finds the length of one in a receive
-- buffer, `serialize` writes one; all three use ByteBauble. A server session and a client listener read
-- bytes from a socket, cut them into messages with `parseHeader`, parse them and hand them to the
-- dispatcher, which gives them to worker threads; these call the handlers of the connection. The
-- server's connections stand in a table, `NmqttClientConnections` (server_connections.h and .cpp).
-- A client (client.h, client.cpp) opens sockets, registers them in `NmqttConnections`, has the listener
-- manager start a thread for each, sends its messages, and keeps a connection alive with a timer,
-- `ChronoTrigger`. All of them write log entries through the macros of nymph_logger.h.
--
-- The files:
-- - Common: names of the libraries, Booleans, lists, bits, and `std::map` as a list of entries.
-- - ByteBauble: `readPackedInt` and `writePackedInt`, loop by loop (read_packed_int, write_packed_int);
--   ByteBauble/Endian: the byte orders (`toGlobal` and `toHost` are to_global and to_host, with the size
--   of their type as an argument). Below them Copies, Read, Write, RoundTrip and Endian/Layout hold the
--   proofs, and Read and Write the rule of the MQTT standard for variable byte integers.
-- - Message: the types and the small methods; Message/Exec: what a run can come to (a result, a
--   `return -1`, an exception of `substr`, a read behind the end of a string) and the platform (byte
--   order and sign of `char`); Message/Parse: `parseMessage`, one function for each part of its
--   `switch`; Message/Header: `parseHeader`; Message/Serialize: `serialize`; Message/Packet: MQTT
--   packets as the standard describes them. The modules below hold the proofs.
-- - ServerConnections: addSocket, getSocket, removeSocket and setCoreParameters as functions of the
--   static members; Validity, Lookup and Refinement hold the proofs, the last one against the contract
--   of a table.
-- - Dispatcher: the two queues and the loop of `Worker::run`; an interleaving of the threads is a list of
--   actions, each of which is what happens under one lock (Validity, Conservation, Progress;
--   Ending and Stopping for `Dispatcher::stop`).
-- - Framing: how a session, and a client listener in the same words, reads one message from a socket. A
--   socket is a record of `receiveBytes` and the laws of a stream (Stream, Whole hold the proofs).
-- - Server: `NmqttServer` and `NmqttServerRequest`, with `sendBytes` as a parameter (Replies); Server/Running:
--   its start and end, and `main` of src/server/nmqtt_server.cpp.
-- - Session: `NmqttSession::run` over Framing, the parser and the table of connections (Rounds,
--   Stream for a whole session, Answers for a client, its session and the reply,
--   Throws for an exception of the parser); Session/Thread: its thread with `stop` and the exceptions of
--   the socket (Table; Loop, which meets the loop of Session).
-- - Client: the messages that `NmqttClient` sends, with its lock (Sending); Client/Lifecycle: connect,
--   disconnect and shutdown over the maps of the client, the listener manager, the connections and the
--   timer, which Client/World puts together (Maps, Pairs, Calls, Ends, Faults, Shutdown; Timer meets the
--   thread of the timer);
--   Client/Lifecycle/Memory: the socket, the semaphore and the listener of a connection, as disconnect
--   or shutdown and the listener's clean-up use and delete them in any order (Dangling, CleanUp, Leak);
--   Client/Handshake: the wait of connect and `connackHandler`, line by line, as interleavings of their
--   threads (Answers); Client/Pinging: the
--   timer whose callback sends a message, which restarts the timer; Client/Starting: `init`, and the
--   variants of connect that make an address.
-- - Listener: a round of `NmqttClientListener::run` over Framing, `NmqttConnections`, and
--   `Request::process` (Delivery; Acknowledged for the answer to CONNECT); Listener/Thread: the thread with
--   its signal to `addConnection` (Rounds; Deliveries for all the messages of a broker).
-- - KeepAlive: a PINGREQ message from the timer of a client through the server, and the answer back to
--   its handler, over a connection that is a parameter (Ways).
-- - ListenerManager: `NmqttClientListenerManager`, and the constructor and `stop` of the listeners
--   (Stopping, Removal).
-- - Logger: the log macros, the levels, and the channel that calls the function of the user; what the loggers
--   of Poco make of the calls that they have had is a parameter (Levels).
-- - ChronoTrigger: the flags of the timer thread, and the calls that set them (Calls);
--   ChronoTrigger/Thread: the thread object with setCallback, start, the callback and `join` (Joining,
--   Lost; Rounds meets the flags of ChronoTrigger).
-- - Timer: `NmqttTimer` of timer.h, which nothing uses.
-- - Tests: runs of the code, and instances of the theorems.
--
-- Numbers are natural numbers with the wrap-around of their C++ type written out; a string is a list of
-- bytes. The loops of `readPackedInt` and `writePackedInt` take the number of rounds that is left as
-- fuel, and start with the bound that the source gives them (4, and `totalBytes`), so it never runs
-- out. The loop of a session or a listener for missing bytes has the remaining length of the message as
-- fuel, which is no less than the bytes that are missing, and each round but the last receives one at
-- least, so that its result for a loop that does not end (`endless`) does not come up; a round stands for
-- a poll that ends with something to read; the rounds of the outer loop are counted. The members that a new `NmqttMessage` does not
-- initialise are taken from an arbitrary object.
-- A socket, a semaphore, or an object that the code has a pointer to is its address. The handles that a
-- client counts do not overflow in the model (the `int` of the code does after 2^31 connections).
-- The bytes that `serialize` copies out of an integer are those of its type in the order of the host.
--
-- In Memory a turn is one use of an object, in Thread one step of the timer's thread or one call by another;
-- when an interval of the timer is over is up to the order of the steps. Whether the timer's thread ends when
-- `disconnect` joins it is an argument of disconnect, which waits for ever if it does not.
--
-- Not modelled: the places where the code writes log entries, and debug output; the code for compilers
-- other than GCC (the swapped bytes are those of `__builtin_bswap16`, 32 and 64); the clock that
-- chronotrigger reads; the threads of the dispatcher and of the listeners as objects; exceptions of
-- sockets in the calls of `shutdown` and `close`; the Poco library; the programs of cpp-test, which
-- call the library and look at the output.
pub mod Common
pub mod ByteBauble
pub mod Message
pub mod ServerConnections
pub mod Dispatcher
pub mod Server
pub mod Framing
pub mod Session
pub mod Client
pub mod Listener
pub mod KeepAlive
pub mod ListenerManager
pub mod ChronoTrigger
pub mod Logger
pub mod Timer
mod Tests
