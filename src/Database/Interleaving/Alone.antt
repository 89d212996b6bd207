-- ===== src/Database/Interleaving/Alone.antt =====
-- A thread that is alone in `user_transaction`.
use secure_person2person_p2p.Base.{
  ◌≡◌, refl, Bool-cases, ◌||◌, inl, inr, List, [], ◌∷◌, Bytes, bytes_eq, ℤ, pos,
}
use secure_person2person_p2p.Database.Storage.{Client, Storage}
use secure_person2person_p2p.Database.Amount.{Double}
use secure_person2person_p2p.Database.Operations.{move_balance, user_transaction, transfer_fail}
use secure_person2person_p2p.Database.Interleaving.{Phase, starting, finished, decided, alone}

module _ {Table D : Type 0} (st : Storage Table) (num : Double D) where
  abbrev Ended : Table × Phase D → Table × ℤ → Type 0
  Ended (t, p) (t', status) = (t ≡ t') × (p ≡ finished status)

  -- From the two queries on.
  alone-decided :
      (t : Table) (senders receivers : List Client) (pay : D)
      → Ended (alone st num 2 t (decided st num senders receivers pay)) (elim senders [
        | [] ↦ (t, transfer_fail)
        | sender ∷ [] ↦ elim receivers [
          | [] ↦ (t, transfer_fail)
          | receiver ∷ [] ↦ move_balance st num t sender receiver pay
          | _ ∷ (_ ∷ _) ↦ (t, transfer_fail)
        ]
        | _ ∷ (_ ∷ _) ↦ (t, transfer_fail)
      ])
  unfolding alone move_balance
  alone-decided t [] receivers pay = (refl, refl)
  alone-decided t (sender ∷ []) [] pay = (refl, refl)
  alone-decided t (sender ∷ []) (receiver ∷ []) pay =
      elim (Bool-cases (num.ltb (num.sub (num.of_int sender.balance) pay) (num.of_int (pos 0)))) [
        | inl e ↦ rw e (refl, refl)
        | inr e ↦ rw e (refl, refl)
      ]
  alone-decided t (sender ∷ []) (_ ∷ (_ ∷ _)) pay = (refl, refl)
  alone-decided t (_ ∷ (_ ∷ _)) receivers pay = (refl, refl)

  -- Five turns are the whole function, whatever the table and the arguments.
  pub alone-user_transaction :
      (t : Table) (snd rcv : Bytes) (pay : D)
      → let (t', status) = user_transaction st num t snd rcv pay in
        let (t'', p) = alone st num 5 t (starting snd rcv pay) in (t'' ≡ t') × (p ≡ finished status)
  unfolding alone user_transaction
  alone-user_transaction t snd rcv pay =
      elim (Bool-cases (num.leb pay (num.of_int (pos 0)) || bytes_eq snd rcv)) [
        | inl refused ↦ elim (Bool-cases (bytes_eq snd rcv)) [
          | inl same ↦ rw (refused, same) (refl, refl)
          | inr other ↦ rw (refused, other) (refl, refl)
        ]
        | inr e ↦ rw e (alone-decided (st.sync_schema t) _ _ pay)
      ]
