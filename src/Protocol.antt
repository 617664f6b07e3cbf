-- ===== src/Protocol.antt =====
-- protocol/dataflow.h and protocol/gen_dataflow.h: the messages on a TCP connection.
pub mod Bytes
pub mod Structs
pub mod RoundTrip
pub mod Dispatch
pub mod Framing
pub mod Cut
mod Tests
