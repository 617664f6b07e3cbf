-- ===== src/Server.antt =====
-- server/server.cpp and server/server_dataflow.cpp: the actions of the server.
pub mod Environment
pub mod Actions
pub mod Sessions
pub mod Mail
pub mod Closing
pub mod Accounts
pub mod Active
pub mod Sending
pub mod Conformance
pub mod Loop
pub mod Start
mod Tests
