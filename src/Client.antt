-- ===== src/Client.antt =====
-- The client, src/client.cpp.
pub mod Peers
pub mod Requests
pub mod Lists
pub mod Lookup
pub mod Messages
pub mod Refresh
pub mod Transfers
pub mod Login
pub mod Session
pub mod Start
pub mod Choices
pub mod Menu
