-- ===== src/Process/Ports.antt =====
-- How both programs ask the kernel for a port that is free, and the 16 bits that `htons` keeps of an
-- `int`. What goes to stderr is left out.
use secure_person2person_p2p.Base.{
  ℕ, ◌-◌, ◌%◌, ◌^◌, Bool, Option, none, some, if◌then◌else◌, Bytes, ℤ, pos, negsuc,
}
use secure_person2person_p2p.Process.Console.{Io, pure, exit, print, ◌>>◌}

-- What the kernel answers: whether `socket` and `bind` succeed, and the port that `getsockname` gives.
pub record Probe : Type 0 where
  pub socket_ok : Bool
  pub bind_ok : Bool
  pub named : Option ℕ

-- A variable that is not assigned is `none`. `text` is what is printed.
abbrev pub store_port : (ℤ → Bytes) → Option ℤ → Option ℕ → Io (Option ℤ)
store_port text target_port none = pure target_port
store_port text target_port (some p) = print (text (pos p)) >> pure (some (pos p))

unfoldable pub find_port : (ℤ → Bytes) → Option ℤ → Probe → Io (Option ℤ)
find_port text target_port probe =
    if probe.socket_ok
    then (if probe.bind_ok then store_port text target_port probe.named else exit 1)
    else exit 1

-- The port of `htons(n)`.
abbrev pub htons : ℤ → ℕ
htons (pos n) = n % 2 ^ 16
htons (negsuc n) = 2 ^ 16 - 1 - n % 2 ^ 16
