-- ===== src/Process.antt =====
-- How a piece of the program ends, and what it does with the terminal and the shell.
pub mod Console
pub mod Ensures
pub mod Ports
pub mod Questions
use secure_person2person_p2p.Base.{ℕ, Bytes}
use secure_person2person_p2p.Text.Number.{Exception}

-- With a value, by an exception that leaves it, by `exit` with a status, in undefined behaviour, or
-- not yet: it waits for input.
pub data Result {ℓ} (A : Type ℓ) : Type ℓ where
  done : A → Result A
  threw : Exception → Result A
  exited : ℕ → Result A
  undefined : Result A
  waits : Result A
