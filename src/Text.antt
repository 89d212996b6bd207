-- ===== src/Text.antt =====
-- The text routines that src/server.cpp and src/client.cpp share or repeat, with the parts of the
-- C and C++ library that they call: tokens, digits, and numbers.
pub mod Split
pub mod Number
