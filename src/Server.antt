-- ===== src/Server.antt =====
-- The server: src/server.cpp.
pub mod Commands
pub mod State
pub mod Entries
pub mod Handler
pub mod Effects
pub mod Answers
pub mod Threads
pub mod System
pub mod Start
pub mod Runs
pub mod Accepting
pub mod Shutdown
pub mod Payments
pub mod Ports
pub mod Lists
