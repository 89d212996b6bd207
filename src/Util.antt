-- ===== src/Util.antt =====
-- include/util.hpp: what the client and the server share.
pub mod Rsa
pub mod Tls
pub mod Transport
pub mod Delivery
pub mod Keys
