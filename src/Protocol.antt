-- ===== src/Protocol.antt =====
-- The clients and the server together: a request from the keyboard to the table and back.
pub mod Wire
pub mod Register
pub mod Login
pub mod Payment
pub mod Running
pub mod Outcomes
pub mod Exit
pub mod Refresh
