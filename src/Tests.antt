-- ===== src/Tests.antt =====
-- Concrete parameters, at which the theorems are applied, and runs of the code on small inputs.
pub mod Table
pub mod Halves
pub mod Bank
pub mod Texts
mod Clients
mod Servers
mod Runs
mod Starts
mod Terminals
mod Protocol
mod Sessions
mod Orders
mod Interleaving
pub mod Toy
