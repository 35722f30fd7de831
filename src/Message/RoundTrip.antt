-- ===== src/Message/RoundTrip.antt =====
-- `parseMessage` on what `serialize` wrote.
pub mod Flags
pub mod Publish
pub mod Bare
pub mod Connect
