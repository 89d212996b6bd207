-- ===== src/Database.antt =====
-- The account database: src/Database.cpp and include/Database.hpp.
pub mod Storage
pub mod Amount
pub mod Operations
pub mod Rows
pub mod Spec
pub mod Refinement
pub mod Tables
pub mod Transfer
pub mod Total
pub mod Sessions
pub mod Logins
pub mod Validity
pub mod Payments
pub mod Conservation
pub mod Commuting
pub mod Interleaving
pub mod Growth
pub mod History
pub mod Lifecycle
