-- ===== src/Database/Interleaving/Apart.antt =====
-- Two threads in `user_transaction` for four different users.
use secure_person2person_p2p.Base.{
  ℕ, ◌-◌, ◌≡◌, refl, ap, ◌∙◌, true, false, [], ◌∷◌, some, Bytes, bytes_eq, bytes_eq_refl,
  bytes_eq_iff, pos, arith,
}
use secure_person2person_p2p.Database.Storage.{Row, Storage, IsStorage}
use secure_person2person_p2p.Database.Amount.{Double}
use secure_person2person_p2p.Database.Operations.{debited, credited, is_online, transfer_ok}
use secure_person2person_p2p.Database.Spec
use secure_person2person_p2p.Database.Spec.{IsValid, bank, assign}
use secure_person2person_p2p.Database.Tables.{
  sync_lem, get_all-online, load-username, bank-update_named, update-IsValid,
}
use secure_person2person_p2p.Database.Transfer.{paid, received}
use secure_person2person_p2p.Database.Interleaving.{
  Phase, starting, finding_sender, finding_receiver, debiting, crediting, finished, advance,
}

-- How many turns a thread still takes, if nothing stops it.
abbrev pub turns_left : {D : Type 0} → Phase D → ℕ
turns_left (starting snd rcv pay) = 5
turns_left (finding_sender snd rcv pay) = 4
turns_left (finding_receiver senders rcv pay) = 3
turns_left (debiting sender receiver pay) = 2
turns_left (crediting receiver pay) = 1
turns_left (finished status) = 0

pub bytes_eq_flip : (u v : Bytes) → bytes_eq u v ≡ false → bytes_eq v u ≡ false
bytes_eq_flip u v e = ground (arith, bytes_eq_iff u v, bytes_eq_iff v u, bytes_eq_refl u)

module _ {Table D : Type 0} {st : Storage Table} (law : IsStorage st) (num : Double D) where
  -- A transfer that goes through: two users who differ and are online, and an amount that is positive and
  -- that the sender's balance covers.
  pub record Going (snd rcv : Bytes) (s r : Row) (pay : D) : Type 0 where
    pub positive : num.leb pay (num.of_int (pos 0)) ≡ false
    pub covered : num.ltb (num.sub (num.of_int s.balance) pay) (num.of_int (pos 0)) ≡ false
    pub differ : bytes_eq snd rcv ≡ false
    pub sender_online : is_online s ≡ true
    pub receiver_online : is_online r ≡ true

  -- The table and the thread, where the transfer is so far.
  pub data At (snd rcv : Bytes) (s r : Row) (pay : D) (t : Table) : Phase D → Type 0 where
    at_start :
        bank law t snd ≡ some s
        → bank law t rcv ≡ some r
        → At snd rcv s r pay t (starting snd rcv pay)
    at_sender :
        bank law t snd ≡ some s
        → bank law t rcv ≡ some r
        → At snd rcv s r pay t (finding_sender snd rcv pay)
    at_receiver :
        bank law t snd ≡ some s
        → bank law t rcv ≡ some r
        → At snd rcv s r pay t (finding_receiver (law.load s ∷ []) rcv pay)
    at_debit :
        bank law t snd ≡ some s
        → bank law t rcv ≡ some r
        → At snd rcv s r pay t (debiting (law.load s) (law.load r) pay)
    at_credit :
        bank law t snd ≡ some (paid law num s pay)
        → bank law t rcv ≡ some r
        → At snd rcv s r pay t (crediting (law.load r) pay)
    at_end :
        bank law t snd ≡ some (paid law num s pay)
        → bank law t rcv ≡ some (received law num r pay)
        → At snd rcv s r pay t (finished transfer_ok)

  -- What a turn leaves to the thread, and to every other user.
  abbrev pub Advanced : Bytes → Bytes → Row → Row → D → Table → Phase D → Table → Phase D → Type 0
  Advanced snd rcv s r pay t p t' p' =
      IsValid law t'
      × At snd rcv s r pay t' p'
      × (turns_left p' ≡ turns_left p - 1)
      × ((u : Bytes)
          → bytes_eq snd u ≡ false
          → bytes_eq rcv u ≡ false
          → bank law t' u ≡ bank law t u)

  -- Another thread's turn.
  pub At-elsewhere :
      (snd rcv : Bytes) (s r : Row) (pay : D) (t t' : Table) (p : Phase D)
      → bank law t' snd ≡ bank law t snd
      → bank law t' rcv ≡ bank law t rcv
      → At snd rcv s r pay t p
      → At snd rcv s r pay t' p
  At-elsewhere snd rcv s r pay t t' p i j (at_start e f) = at_start (i ∙ e) (j ∙ f)
  At-elsewhere snd rcv s r pay t t' p i j (at_sender e f) = at_sender (i ∙ e) (j ∙ f)
  At-elsewhere snd rcv s r pay t t' p i j (at_receiver e f) = at_receiver (i ∙ e) (j ∙ f)
  At-elsewhere snd rcv s r pay t t' p i j (at_debit e f) = at_debit (i ∙ e) (j ∙ f)
  At-elsewhere snd rcv s r pay t t' p i j (at_credit e f) = at_credit (i ∙ e) (j ∙ f)
  At-elsewhere snd rcv s r pay t t' p i j (at_end e f) = at_end (i ∙ e) (j ∙ f)

  pub online-found :
      (t : Table) (u : Bytes) (r : Row)
      → bank law t u ≡ some r
      → is_online r ≡ true
      → Spec.online (bank law t u) ≡ some r
  online-found t u r e on = rw (e, on)

  pub assign-same : (b : Spec.Bank) (u : Bytes) (r : Row) → assign b u r u ≡ some r
  assign-same b u r = rw (bytes_eq_refl u)

  pub assign-other :
      (b : Spec.Bank) (u v : Bytes) (r : Row) → bytes_eq u v ≡ false → assign b u r v ≡ b v
  assign-other b u v r e = rw e

  pub bank-debit :
      (t : Table) (snd : Bytes) (s : Row) (pay : D) (w : Bytes)
      → IsValid law t
      → bank law t snd ≡ some s
      → bank law (st.update (debited st num (law.load s) pay) t) w
        ≡ assign (bank law t) snd (paid law num s pay) w
  bank-debit t snd s pay w v e =
      bank-update_named law (debited st num (law.load s) pay) t snd s (paid law num s pay) w v e
        (load-username law t snd s e) (ap (λ y. paid law num y pay) (law.columns-load s))

  pub bank-credit :
      (t : Table) (rcv : Bytes) (r : Row) (pay : D) (w : Bytes)
      → IsValid law t
      → bank law t rcv ≡ some r
      → bank law (st.update (credited st num (law.load r) pay) t) w
        ≡ assign (bank law t) rcv (received law num r pay) w
  bank-credit t rcv r pay w v e =
      bank-update_named law (credited st num (law.load r) pay) t rcv r (received law num r pay) w v
        e (load-username law t rcv r e) (ap (λ y. received law num y pay) (law.columns-load r))

  pub advance-At :
      (snd rcv : Bytes) (s r : Row) (pay : D) (t : Table) (p : Phase D)
      → Going snd rcv s r pay
      → IsValid law t
      → At snd rcv s r pay t p
      → let (t', p') = advance st num t p in Advanced snd rcv s r pay t p t' p'
  unfolding advance
  advance-At snd rcv s r pay t p g v (at_start e f) =
      rw (sync_lem law t v, g.positive, g.differ) (v, at_sender e f, refl, λ u x y. refl)
  advance-At snd rcv s r pay t p g v (at_sender e f) =
      rw (get_all-online law t snd v, online-found t snd s e g.sender_online)
        (v, at_receiver e f, refl, λ u x y. refl)
  advance-At snd rcv s r pay t p g v (at_receiver e f) =
      let covered : num.ltb (num.sub (num.of_int (law.load s).balance) pay) (num.of_int (pos 0))
          ≡ false =
        ap (λ (x : Row). num.ltb (num.sub (num.of_int x.balance) pay) (num.of_int (pos 0)))
          (law.columns-load s)
        ∙ g.covered in
      rw (get_all-online law t rcv v, online-found t rcv r f g.receiver_online, covered)
        (v, at_debit e f, refl, λ u x y. refl)
  advance-At snd rcv s r pay t p g v (at_debit e f) = (
    update-IsValid law _ t v,
    at_credit (bank-debit t snd s pay snd v e ∙ assign-same (bank law t) snd _)
        (bank-debit t snd s pay rcv v e ∙ assign-other (bank law t) snd rcv _ g.differ ∙ f),
    refl,
    λ u x y. bank-debit t snd s pay u v e ∙ assign-other (bank law t) snd u _ x,
  )
  advance-At snd rcv s r pay t p g v (at_credit e f) = (
    update-IsValid law _ t v,
    at_end
        (bank-credit t rcv r pay snd v f
          ∙ assign-other (bank law t) rcv snd _ (bytes_eq_flip snd rcv g.differ)
          ∙ e)
        (bank-credit t rcv r pay rcv v f ∙ assign-same (bank law t) rcv _),
    refl,
    λ u x y. bank-credit t rcv r pay u v f ∙ assign-other (bank law t) rcv u _ y,
  )
  advance-At snd rcv s r pay t p g v (at_end e f) = (v, at_end e f, refl, λ u x y. refl)
