-- ===== src/Client.antt =====
-- client/client.cpp and client/client_dataflow.cpp: the actions and the commands of the client.
pub mod Environment
pub mod Actions
pub mod Commands
pub mod Peers
pub mod Routes
pub mod Input
pub mod Threads
pub mod Joined
pub mod Start
pub mod Transfers
mod Tests
