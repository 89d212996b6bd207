-- ===== src/Database/Transfer.antt =====
-- `user_transaction` does what the specification says.
use secure_person2person_p2p.Base.{
  ◌≡◌, refl, ap, ◌∙◌, Bool, true, false, ◌||◌, Option, none, some, if◌then◌else◌, Bytes, bytes_eq,
  pos, arith, Bool-cases, Option-cases, inl, inr,
}
use secure_person2person_p2p.Database.Storage.{Row, Storage, IsStorage}
use secure_person2person_p2p.Database.Amount.{Double}
use secure_person2person_p2p.Database.Operations.{
  user_transaction, move_balance, debited, credited, is_online, transfer_ok, transfer_fail,
  transfer_sender_bankrupt, transfer_self_fail,
}
use secure_person2person_p2p.Database.Spec
use secure_person2person_p2p.Database.Spec.{IsValid, bank, Agrees, assign}
use secure_person2person_p2p.Database.Tables.{
  sync_lem, get_all-online, bank-update_named, load-username, update-IsValid,
}

-- A user who is online has an account.
pub online-some :
    (o : Option Row) (r : Row) → Spec.online o ≡ some r → (o ≡ some r) × (is_online r ≡ true)
online-some none r e = cc
online-some (some x) r e = ground arith

pub or-false : (p q : Bool) → (p || q) ≡ false → (p ≡ false) × (q ≡ false)
or-false p q e = ground arith

or-left : (p q : Bool) → (p || q) ≡ true → q ≡ false → p ≡ true
or-left p q e f = ground arith

module _ {Table D : Type 0} {st : Storage Table} (law : IsStorage st) (num : Double D) where
  pub transaction_refused :
      (t : Table) (snd rcv : Bytes) (pay : D)
      → IsValid law t
      → (num.leb pay (num.of_int (pos 0)) || bytes_eq snd rcv) ≡ true
      → user_transaction st num t snd rcv pay
        ≡ (t, if bytes_eq snd rcv then transfer_self_fail else transfer_fail)
  unfolding user_transaction
  transaction_refused t snd rcv pay v e = rw (sync_lem law t v, e) (ground arith)

  pub transaction_no_sender :
      (t : Table) (snd rcv : Bytes) (pay : D)
      → IsValid law t
      → (num.leb pay (num.of_int (pos 0)) || bytes_eq snd rcv) ≡ false
      → Spec.online (bank law t snd) ≡ none
      → user_transaction st num t snd rcv pay ≡ (t, transfer_fail)
  unfolding user_transaction
  transaction_no_sender t snd rcv pay v e s =
      rw (sync_lem law t v, e, get_all-online law t snd v, s, sync_lem law t v)

  pub transaction_no_receiver :
      (t : Table) (snd rcv : Bytes) (pay : D) (s : Row)
      → IsValid law t
      → (num.leb pay (num.of_int (pos 0)) || bytes_eq snd rcv) ≡ false
      → Spec.online (bank law t snd) ≡ some s
      → Spec.online (bank law t rcv) ≡ none
      → user_transaction st num t snd rcv pay ≡ (t, transfer_fail)
  unfolding user_transaction
  transaction_no_receiver t snd rcv pay s v e es er = rw (
    sync_lem law t v,
    e,
    get_all-online law t snd v,
    es,
    sync_lem law t v,
    get_all-online law t rcv v,
    er,
    sync_lem law t v,
  )

  pub transaction_found :
      (t : Table) (snd rcv : Bytes) (pay : D) (s r : Row)
      → IsValid law t
      → (num.leb pay (num.of_int (pos 0)) || bytes_eq snd rcv) ≡ false
      → Spec.online (bank law t snd) ≡ some s
      → Spec.online (bank law t rcv) ≡ some r
      → user_transaction st num t snd rcv pay ≡ move_balance st num t (law.load s) (law.load r) pay
  unfolding user_transaction
  transaction_found t snd rcv pay s r v e es er = rw (
    sync_lem law t v,
    e,
    get_all-online law t snd v,
    es,
    sync_lem law t v,
    get_all-online law t rcv v,
    er,
    sync_lem law t v,
  )

  -- The two accounts after a transfer, and the table.
  abbrev pub paid : Row → D → Row
  paid s pay = record s { balance = num.to_int (num.sub (num.of_int s.balance) pay) }

  abbrev pub received : Row → D → Row
  received r pay = record r { balance = num.to_int (num.add (num.of_int r.balance) pay) }

  abbrev pub moved : Table → Row → Row → D → Table
  moved t s r pay =
      st.update (credited st num (law.load r) pay) (st.update (debited st num (law.load s) pay) t)

  pub move_balance_lem :
      (t : Table) (s r : Row) (pay : D)
      → move_balance st num t (law.load s) (law.load r) pay ≡ (
          if num.ltb (num.sub (num.of_int s.balance) pay) (num.of_int (pos 0))
          then (t, transfer_sender_bankrupt)
          else (moved t s r pay, transfer_ok))
  unfolding move_balance
  move_balance_lem t s r pay =
      ap
        (λ b.
          if num.ltb (num.sub (num.of_int b) pay) (num.of_int (pos 0))
          then (t, transfer_sender_bankrupt)
          else (moved t s r pay, transfer_ok))
        (ap (λ (x : Row). x.balance) (law.columns-load s))

  pub bank-debited :
      (t : Table) (snd : Bytes) (s : Row) (pay : D) (w : Bytes)
      → IsValid law t
      → bank law t snd ≡ some s
      → bank law (st.update (debited st num (law.load s) pay) t) w
        ≡ assign (bank law t) snd (paid s pay) w
  bank-debited t snd s pay w v e =
      bank-update_named law (debited st num (law.load s) pay) t snd s (paid s pay) w v e
        (load-username law t snd s e) (ap (λ y. paid y pay) (law.columns-load s))

  pub bank-moved :
      (t : Table) (snd rcv : Bytes) (s r : Row) (pay : D) (w : Bytes)
      → IsValid law t
      → bytes_eq snd rcv ≡ false
      → bank law t snd ≡ some s
      → bank law t rcv ≡ some r
      → bank law (moved t s r pay) w
        ≡ assign (assign (bank law t) snd (paid s pay)) rcv (received r pay) w
  bank-moved t snd rcv s r pay w v ne es er =
      let first = debited st num (law.load s) pay in
      bank-update_named law (credited st num (law.load r) pay) (st.update first t) rcv r
        (received r pay) w (update-IsValid law first t v)
        (bank-debited t snd s pay rcv v es ∙ rw ne er) (load-username law t rcv r er)
        (ap (λ y. received y pay) (law.columns-load r))
      ∙ ap (λ o. if bytes_eq rcv w then some (received r pay) else o)
          (bank-debited t snd s pay w v es)

  pub transaction_moved :
      (t : Table) (snd rcv : Bytes) (pay : D) (s r : Row)
      → IsValid law t
      → (num.leb pay (num.of_int (pos 0)) || bytes_eq snd rcv) ≡ false
      → Spec.online (bank law t snd) ≡ some s
      → Spec.online (bank law t rcv) ≡ some r
      → user_transaction st num t snd rcv pay ≡ (
          if num.ltb (num.sub (num.of_int s.balance) pay) (num.of_int (pos 0))
          then (t, transfer_sender_bankrupt)
          else (moved t s r pay, transfer_ok))
  transaction_moved t snd rcv pay s r v e es er =
      transaction_found t snd rcv pay s r v e es er ∙ move_balance_lem t s r pay

  found-refines :
      (t : Table) (snd rcv : Bytes) (pay : D) (s r : Row)
      → IsValid law t
      → (num.leb pay (num.of_int (pos 0)) || bytes_eq snd rcv) ≡ false
      → Spec.online (bank law t snd) ≡ some s
      → Spec.online (bank law t rcv) ≡ some r
      → let (t', q) = user_transaction st num t snd rcv pay in
        Agrees (bank law t', q) (Spec.pay_out num (bank law t) snd rcv s r pay)
  unfolding Spec.pay_out
  found-refines t snd rcv pay s r v e es er =
      rw (transaction_moved t snd rcv pay s r v e es er)
        (elim (Bool-cases (num.ltb (num.sub (num.of_int s.balance) pay) (num.of_int (pos 0)))) [
          | inl low ↦ rw (low, Spec.pay_out) (refl, λ w. refl)
          | inr enough ↦
              rw (enough, Spec.pay_out)
                (
                  refl,
                  λ w.
                      bank-moved t snd rcv s r pay w v (or-false _ _ e).1 (online-some _ s es).0
                        (online-some _ r er).0,
                )
        ])

  refused-refines :
      (t : Table) (snd rcv : Bytes) (pay : D)
      → (num.leb pay (num.of_int (pos 0)) || bytes_eq snd rcv) ≡ true
      → Agrees
          (bank law t, if bytes_eq snd rcv then transfer_self_fail else transfer_fail)
          (Spec.transaction num (bank law t) snd rcv pay)
  unfolding Spec.transaction
  refused-refines t snd rcv pay e = elim (Bool-cases (bytes_eq snd rcv)) [
    | inl same ↦ rw (same, Spec.transaction) (refl, λ w. refl)
    | inr other ↦
        rw
          (
            other,
            Spec.transaction,
            or-left (num.leb pay (num.of_int (pos 0))) (bytes_eq snd rcv) e other,
          )
          (refl, λ w. refl)
  ]

  -- Where the table fits the mapping and has no name twice: a transfer is refused for a user paying
  -- himself, for an amount that is not positive, and unless both users are online; it bounces if
  -- the sender's balance does not cover it; otherwise it changes the two balances. No account
  -- changes otherwise.
  pub user_transaction-refines :
      (t : Table) (snd rcv : Bytes) (pay : D)
      → IsValid law t
      → let (t', q) = user_transaction st num t snd rcv pay in
        Agrees (bank law t', q) (Spec.transaction num (bank law t) snd rcv pay)
  unfolding Spec.transaction
  user_transaction-refines t snd rcv pay v =
      elim (Bool-cases (num.leb pay (num.of_int (pos 0)) || bytes_eq snd rcv)) [
        | inl e ↦ rw (transaction_refused t snd rcv pay v e) (refused-refines t snd rcv pay e)
        | inr e ↦
            let (low, same) = or-false (num.leb pay (num.of_int (pos 0))) (bytes_eq snd rcv) e in
            elim (Option-cases (Spec.online (bank law t snd))) [
              | inl es ↦
                  rw (transaction_no_sender t snd rcv pay v e es, Spec.transaction, same, low, es)
                    (refl, λ w. refl)
              | inr (s, es) ↦ elim (Option-cases (Spec.online (bank law t rcv))) [
                | inl er ↦
                    rw
                      (
                        transaction_no_receiver t snd rcv pay s v e es er,
                        Spec.transaction,
                        same,
                        low,
                        es,
                        er,
                      )
                      (refl, λ w. refl)
                | inr (r, er) ↦
                    rw (Spec.transaction, same, low, es, er)
                      (found-refines t snd rcv pay s r v e es er)
              ]
            ]
      ]
