-- ===== src/Database/Interleaving/Race.antt =====
-- Two threads in `user_transaction` for one receiver.
use secure_person2person_p2p.Base.{
  ◌≡◌, refl, ap, ◌∙◌, Bool, true, false, List, [], ◌∷◌, some, Bytes, bytes_eq, ℤ, pos,
}
use secure_person2person_p2p.Database.Storage.{Row, Storage, IsStorage}
use secure_person2person_p2p.Database.Amount.{Double}
use secure_person2person_p2p.Database.Operations.{debited, credited, user_transaction, transfer_ok}
use secure_person2person_p2p.Database.Spec.{IsValid, bank, assign}
use secure_person2person_p2p.Database.Tables.{
  sync_lem, get_all-online, load-username, bank-update_named, update-IsValid,
}
use secure_person2person_p2p.Database.Transfer.{
  paid, received, moved, transaction_found, move_balance_lem,
}
use secure_person2person_p2p.Database.Interleaving.{starting, debiting, finished, alone, interleave}
use secure_person2person_p2p.Database.Interleaving.Alone.{alone-user_transaction}
use secure_person2person_p2p.Database.Interleaving.Apart.{
  Going, bytes_eq_flip, bank-debit, bank-credit, online-found, assign-same, assign-other,
}

-- The first thread has read both accounts when the second makes its whole transfer.
abbrev pub overtaken : List Bool
overtaken =
    true ∷ (true ∷ (true ∷ (false ∷ (false ∷ (false ∷ (false ∷ (false ∷ (true ∷ (true ∷ [])))))))))

module _ {Table D : Type 0} {st : Storage Table} (law : IsStorage st) (num : Double D) where
  -- The two queries.
  alone-debiting :
      (snd rcv : Bytes) (s r : Row) (pay : D) (t : Table)
      → Going law num snd rcv s r pay
      → IsValid law t
      → bank law t snd ≡ some s
      → bank law t rcv ≡ some r
      → alone st num 3 t (starting snd rcv pay) ≡ (t, debiting (law.load s) (law.load r) pay)
  unfolding alone
  alone-debiting snd rcv s r pay t g v es er =
      let covered : num.ltb (num.sub (num.of_int (law.load s).balance) pay) (num.of_int (pos 0))
          ≡ false =
        ap (λ (x : Row). num.ltb (num.sub (num.of_int x.balance) pay) (num.of_int (pos 0)))
          (law.columns-load s)
        ∙ g.covered in
      rw (
        sync_lem law t v,
        g.positive,
        g.differ,
        get_all-online law t snd v,
        online-found law num t snd s es g.sender_online,
        get_all-online law t rcv v,
        online-found law num t rcv r er g.receiver_online,
        covered,
      )

  alone-moved :
      (snd rcv : Bytes) (s r : Row) (pay : D) (t : Table)
      → Going law num snd rcv s r pay
      → IsValid law t
      → bank law t snd ≡ some s
      → bank law t rcv ≡ some r
      → let (t', p) = alone st num 5 t (starting snd rcv pay) in
        (t' ≡ moved law num t s r pay) × (p ≡ finished transfer_ok)
  alone-moved snd rcv s r pay t g v es er =
      let q : user_transaction st num t snd rcv pay ≡ (moved law num t s r pay, transfer_ok) =
        transaction_found law num t snd rcv pay s r v (rw (g.positive, g.differ))
          (online-found law num t snd s es g.sender_online)
          (online-found law num t rcv r er g.receiver_online)
        ∙ move_balance_lem law num t s r pay
        ∙ rw (g.covered) in
      let (e, k) = alone-user_transaction st num t snd rcv pay in
      (e ∙ ap (λ (x : Table × ℤ). x.0) q, k ∙ ap (λ (x : Table × ℤ). finished x.1) q)

  -- The four updates, the last of them by what the first thread has read.
  moved-stale :
      (snd snd' rcv : Bytes) (s s' r : Row) (pay pay' : D) (t : Table)
      → bytes_eq snd rcv ≡ false
      → bytes_eq snd' rcv ≡ false
      → bytes_eq snd snd' ≡ false
      → IsValid law t
      → bank law t snd ≡ some s
      → bank law t snd' ≡ some s'
      → bank law t rcv ≡ some r
      → let t' = moved law num (moved law num t s' r pay') s r pay in
        (bank law t' snd ≡ some (paid law num s pay))
        × (bank law t' snd' ≡ some (paid law num s' pay'))
        × (bank law t' rcv ≡ some (received law num r pay))
  moved-stale snd snd' rcv s s' r pay pay' t n n' apart v es es' er =
      let t0 = st.update (debited st num (law.load s') pay') t in
      let t1 = moved law num t s' r pay' in
      let t2 = st.update (debited st num (law.load s) pay) t1 in
      let v0 : IsValid law t0 = update-IsValid law _ t v in
      let v1 : IsValid law t1 = update-IsValid law _ t0 v0 in
      let v2 : IsValid law t2 = update-IsValid law _ t1 v1 in
      let b0 : (w : Bytes) → bank law t0 w ≡ assign (bank law t) snd' (paid law num s' pay') w =
        λ w. bank-debit law num t snd' s' pay' w v es' in
      let r0 : bank law t0 rcv ≡ some r =
        b0 rcv ∙ assign-other law num (bank law t) snd' rcv _ n' ∙ er in
      let b1 : (w : Bytes) → bank law t1 w ≡ assign (bank law t0) rcv (received law num r pay') w =
        λ w. bank-credit law num t0 rcv r pay' w v0 r0 in
      let s1 : bank law t1 snd ≡ some s =
        b1 snd
        ∙ assign-other law num (bank law t0) rcv snd _ (bytes_eq_flip snd rcv n)
        ∙ b0 snd
        ∙ assign-other law num (bank law t) snd' snd _ (bytes_eq_flip snd snd' apart)
        ∙ es in
      let b2 : (w : Bytes) → bank law t2 w ≡ assign (bank law t1) snd (paid law num s pay) w =
        λ w. bank-debit law num t1 snd s pay w v1 s1 in
      let r2 : bank law t2 rcv ≡ some (received law num r pay') =
        b2 rcv
        ∙ assign-other law num (bank law t1) snd rcv _ n
        ∙ b1 rcv
        ∙ assign-same law num (bank law t0) rcv _ in
      let b3 : (w : Bytes)
          → bank law (moved law num t1 s r pay) w
            ≡ assign (bank law t2) rcv (received law num r pay) w =
        λ w.
          bank-update_named law (credited st num (law.load r) pay) t2 rcv (received law num r pay')
            (received law num r pay) w v2 r2 (load-username law t rcv r er)
            (ap (λ y. received law num y pay) (law.columns-load r)) in
      (
        b3 snd
            ∙ assign-other law num (bank law t2) rcv snd _ (bytes_eq_flip snd rcv n)
            ∙ b2 snd
            ∙ assign-same law num (bank law t1) snd _,
        b3 snd'
            ∙ assign-other law num (bank law t2) rcv snd' _ (bytes_eq_flip snd' rcv n')
            ∙ b2 snd'
            ∙ assign-other law num (bank law t1) snd snd' _ apart
            ∙ b1 snd'
            ∙ assign-other law num (bank law t0) rcv snd' _ (bytes_eq_flip snd' rcv n')
            ∙ b0 snd'
            ∙ assign-same law num (bank law t) snd' _,
        b3 rcv ∙ assign-same law num (bank law t2) rcv _,
      )

  -- Two threads in `user_transaction` at once, each call of the storage being one turn, for two
  -- senders and one receiver, in a table that fits the mapping and has no name twice, with
  -- transfers that would go through: if the second makes its whole transfer when the first has read
  -- both accounts and written none, both end with success and both senders have paid, but the
  -- receiver has only the amount of the first.
  pub interleave_loses :
      (snd snd' rcv : Bytes) (s s' r : Row) (pay pay' : D) (t : Table)
      → Going law num snd rcv s r pay
      → Going law num snd' rcv s' r pay'
      → bytes_eq snd snd' ≡ false
      → IsValid law t
      → bank law t snd ≡ some s
      → bank law t snd' ≡ some s'
      → bank law t rcv ≡ some r
      → let (t', p, q) =
          interleave st num overtaken t (starting snd rcv pay) (starting snd' rcv pay') in
        (p ≡ finished transfer_ok)
        × (q ≡ finished transfer_ok)
        × (bank law t' snd ≡ some (paid law num s pay))
        × (bank law t' snd' ≡ some (paid law num s' pay'))
        × (bank law t' rcv ≡ some (received law num r pay))
  unfolding interleave alone
  interleave_loses snd snd' rcv s s' r pay pay' t g g' apart v es es' er =
      let first = alone-debiting snd rcv s r pay t g v es er in
      let (second, ended) = alone-moved snd' rcv s' r pay' t g' v es' er in
      let (a, b, c) =
        moved-stale snd snd' rcv s s' r pay pay' t g.differ g'.differ apart v es es' er in
      rw (first, second, ended) (refl, refl, a, b, c)
