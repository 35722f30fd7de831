-- ===== src/Tests.antt =====
-- Runs of the code on concrete values, and instances of the theorems.
mod Objects
mod Runs
mod Packing
mod Serializing
mod Parsing
mod Connections
mod Threads
mod Sessions
mod Streams
mod Servers
mod Lifecycles
mod Loggers
mod Clients
mod Timers
mod Handshakes
mod Deliveries
mod KeepAlives
mod TimerThreads
mod Memories
mod SessionThreads
