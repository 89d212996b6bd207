-- ===== src/Protocol/Payment.antt =====
-- A transfer: from the client of the one who pays, over the client of the receiver, to the server, and
-- the answer back to the one who pays.
pub mod Round
use secure_person2person_p2p.Base.{◌≡◌, Bytes, ℤ, ◌+ℤ◌, ◌-ℤ◌}
use secure_person2person_p2p.Database.Storage.{Row, Storage}
use secure_person2person_p2p.Database.Spec
use secure_person2person_p2p.Database.Spec.{assign}
use secure_person2person_p2p.Protocol.Wire.{Wire}

-- The bank after the transfer.
abbrev pub Moved : Spec.Bank → Bytes → Bytes → ℤ → Row → Row → Spec.Bank → Type 0
Moved b snd rcv a s r b' =
    (v : Bytes)
    → b' v
      ≡ assign (assign b snd (record s { balance = s.balance -ℤ a })) rcv
          (record r { balance = r.balance +ℤ a }) v
