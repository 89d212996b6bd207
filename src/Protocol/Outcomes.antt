-- ===== src/Protocol/Outcomes.antt =====
-- A transfer over the network, whatever becomes of it.
use secure_person2person_p2p.Base.{◌≡◌, none, if◌then◌else◌, codes, some, Bytes, bytes_eq, ℤ, pos}
use secure_person2person_p2p.Database.Storage.{Row, Storage}
use secure_person2person_p2p.Database.Amount.{Double}
use secure_person2person_p2p.Database.Spec
use secure_person2person_p2p.Database.Spec.{assign}
use secure_person2person_p2p.Server.Handler.{transaction_response}
use secure_person2person_p2p.Protocol.Wire.{Wire, IsMessage}

-- What an account that was there and the answer, which reads `text`, are after a transfer.
abbrev Answerable : Bytes → Bytes → Spec.Bank × ℤ → Type 0
Answerable snd text (b, status) =
    ((x : Row) × (b snd ≡ some x))
    × IsMessage (transaction_response status)
    × (transaction_response status ≡ text)

module _ {D : Type 0} (num : Double D) where
  -- The text that a sender of an amount reads, where both users are online and differ.
  unfoldable pub afford : Row → D → Bytes
  afford s paid =
      if num.ltb (num.sub (num.of_int s.balance) paid) (num.of_int (pos 0))
      then codes "transfer FAIL due to bankruptcy\n"
      else codes "transfer OK\n"

  -- The text that a sender reads: first of a transfer to oneself, then of an amount that is not
  -- above 0, then of a user who is not online.
  unfoldable pub verdict : Spec.Bank → Bytes → Bytes → D → Bytes
  unfolding afford
  verdict b snd rcv paid =
      if bytes_eq snd rcv
      then codes "transfer FAIL; can't transfer to yourself\n"
      else if num.leb paid (num.of_int (pos 0))
      then codes "transfer FAIL\n"
      else elim (Spec.online (b snd)) [
        | none ↦ codes "transfer FAIL\n"
        | some s ↦ elim (Spec.online (b rcv)) [
          | none ↦ codes "transfer FAIL\n"
          | some r ↦ afford s paid
        ]
      ]
