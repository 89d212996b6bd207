-- ===== src/Database/Interleaving/Schedules.antt =====
-- Two threads in `user_transaction` for four different users, in any order of their turns.
use secure_person2person_p2p.Base.{
  ℕ, ◌+◌, ◌-◌, ◌≤◌, ◌≡◌, refl, sym, ap, ◌∙◌, if◌then◌else◌, Bool, Bool-cases, true, false, inl, inr,
  List, [], ◌∷◌, some, Bytes, bytes_eq, bytes_eq_iff, arith,
}
use secure_person2person_p2p.Database.Storage.{Row, Storage, IsStorage}
use secure_person2person_p2p.Database.Amount.{Double}
use secure_person2person_p2p.Database.Operations.{user_transaction, transfer_ok}
use secure_person2person_p2p.Database.Spec.{IsValid, bank}
use secure_person2person_p2p.Database.Transfer.{paid, received}
use secure_person2person_p2p.Database.Interleaving.{
  Phase, starting, finished, advance, alone, interleave,
}
use secure_person2person_p2p.Database.Interleaving.Alone.{alone-user_transaction}
use secure_person2person_p2p.Database.Interleaving.Apart.{
  bytes_eq_flip, turns_left, Going, At, at_start, at_end, at_sender, at_receiver, at_debit,
  at_credit, At-elsewhere, advance-At,
}

-- The turns of the first thread, and those of the second.
abbrev pub firsts : List Bool → ℕ
firsts [] = 0
firsts (true ∷ turns) = firsts turns + 1
firsts (false ∷ turns) = firsts turns

abbrev pub seconds : List Bool → ℕ
seconds [] = 0
seconds (true ∷ turns) = seconds turns
seconds (false ∷ turns) = seconds turns + 1

module _ {Table D : Type 0} {st : Storage Table} (law : IsStorage st) (num : Double D)
    (snd rcv : Bytes) (s r : Row) (pay : D) where
  At-ended :
      (t : Table) (p : Phase D)
      → At law num snd rcv s r pay t p
      → turns_left p ≡ 0
      → (p ≡ finished transfer_ok)
        × (bank law t snd ≡ some (paid law num s pay))
        × (bank law t rcv ≡ some (received law num r pay))
  At-ended t p (at_start e f) h = absurd (omega (arith, h))
  At-ended t p (at_sender e f) h = absurd (omega (arith, h))
  At-ended t p (at_receiver e f) h = absurd (omega (arith, h))
  At-ended t p (at_debit e f) h = absurd (omega (arith, h))
  At-ended t p (at_credit e f) h = absurd (omega (arith, h))
  At-ended t p (at_end e f) h = (refl, e, f)

module _ {Table D : Type 0} {st : Storage Table} (law : IsStorage st) (num : Double D)
    (snd rcv : Bytes) (s r : Row) (pay : D) (snd' rcv' : Bytes) (s' r' : Row) (pay' : D) where
  pub record Apart : Type 0 where
    pub senders : bytes_eq snd snd' ≡ false
    pub crossed : bytes_eq snd rcv' ≡ false
    pub crossed_back : bytes_eq rcv snd' ≡ false
    pub receivers : bytes_eq rcv rcv' ≡ false

  -- Where both threads are after some turns, and that nobody else's account has changed.
  abbrev Both : ℕ → ℕ → Table → Table → Phase D → Phase D → Type 0
  Both m n before t p q =
      IsValid law t
      × At law num snd rcv s r pay t p
      × At law num snd' rcv' s' r' pay' t q
      × (turns_left p ≡ m)
      × (turns_left q ≡ n)
      × ((u : Bytes)
          → bytes_eq snd u ≡ false
          → bytes_eq rcv u ≡ false
          → bytes_eq snd' u ≡ false
          → bytes_eq rcv' u ≡ false
          → bank law t u ≡ bank law before u)

  interleave-Both :
      (turns : List Bool) (t : Table) (p q : Phase D)
      → Apart
      → Going law num snd rcv s r pay
      → Going law num snd' rcv' s' r' pay'
      → IsValid law t
      → At law num snd rcv s r pay t p
      → At law num snd' rcv' s' r' pay' t q
      → let (t', p', q') = interleave st num turns t p q in
        Both (turns_left p - firsts turns) (turns_left q - seconds turns) t t' p' q'
  unfolding interleave
  interleave-Both [] t p q apart g g' v a b = (v, a, b, omega arith, omega arith, λ u w x y z. refl)
  interleave-Both (true ∷ turns) t p q apart g g' v a b =
      let (v1, a1, left, same) = advance-At law num snd rcv s r pay t p g v a in
      let b1 =
        At-elsewhere law num snd' rcv' s' r' pay' t (advance st num t p).0 q
          (same snd' apart.senders apart.crossed_back) (same rcv' apart.crossed apart.receivers)
          b in
      let (v2, a2, b2, m, n, others) =
        interleave-Both turns (advance st num t p).0 (advance st num t p).1 q apart g g' v1 a1 b1 in
      (v2, a2, b2, omega (arith, m, left), n, λ u w x y z. others u w x y z ∙ same u w x)
  interleave-Both (false ∷ turns) t p q apart g g' v a b =
      let (v1, b1, left, same) = advance-At law num snd' rcv' s' r' pay' t q g' v b in
      let a1 =
        At-elsewhere law num snd rcv s r pay t (advance st num t q).0 p
          (same snd (bytes_eq_flip snd snd' apart.senders) (bytes_eq_flip snd rcv' apart.crossed))
          (same rcv (bytes_eq_flip rcv snd' apart.crossed_back)
            (bytes_eq_flip rcv rcv' apart.receivers))
          a in
      let (v2, a2, b2, m, n, others) =
        interleave-Both turns (advance st num t q).0 p (advance st num t q).1 apart g g' v1 a1 b1 in
      (v2, a2, b2, m, omega (arith, n, left), λ u w x y z. others u w x y z ∙ same u y z)

  -- Both have ended.
  abbrev Settled : Table → Table → Phase D → Phase D → Type 0
  Settled before t p q =
      (p ≡ finished transfer_ok)
      × (q ≡ finished transfer_ok)
      × ((u : Bytes)
          → bank law t u ≡ (
              if bytes_eq snd u
              then some (paid law num s pay)
              else if bytes_eq rcv u
              then some (received law num r pay)
              else if bytes_eq snd' u
              then some (paid law num s' pay')
              else if bytes_eq rcv' u
              then some (received law num r' pay')
              else bank law before u))

  named_bank :
      (t : Table) (u v : Bytes) (x : Row)
      → bank law t u ≡ some x
      → bytes_eq u v ≡ true
      → bank law t v ≡ some x
  named_bank t u v x e k = ap (bank law t) (sym ((bytes_eq_iff u v).0 k)) ∙ e

  interleave-Settled :
      (turns : List Bool) (t : Table)
      → Apart
      → Going law num snd rcv s r pay
      → Going law num snd' rcv' s' r' pay'
      → IsValid law t
      → bank law t snd ≡ some s
      → bank law t rcv ≡ some r
      → bank law t snd' ≡ some s'
      → bank law t rcv' ≡ some r'
      → 5 ≤ firsts turns
      → 5 ≤ seconds turns
      → let (t', p', q') =
          interleave st num turns t (starting snd rcv pay) (starting snd' rcv' pay') in
        Settled t t' p' q'
  interleave-Settled turns t apart g g' v es er es' er' m n =
      let (v', a, b, left, left', others) =
        interleave-Both turns t (starting snd rcv pay) (starting snd' rcv' pay') apart g g' v
          (at_start es er) (at_start es' er') in
      let t' = (interleave st num turns t (starting snd rcv pay) (starting snd' rcv' pay')).0 in
      let (done_first, e1, e2) = At-ended law num snd rcv s r pay t' _ a (omega (arith, left, m)) in
      let (done_second, e3, e4) =
        At-ended law num snd' rcv' s' r' pay' t' _ b (omega (arith, left', n)) in
      (
        done_first,
        done_second,
        λ u. elim (Bool-cases (bytes_eq snd u)) [
          | inl k1 ↦ rw k1 (named_bank t' snd u _ e1 k1)
          | inr n1 ↦ elim (Bool-cases (bytes_eq rcv u)) [
            | inl k2 ↦ rw (n1, k2) (named_bank t' rcv u _ e2 k2)
            | inr n2 ↦ elim (Bool-cases (bytes_eq snd' u)) [
              | inl k3 ↦ rw (n1, n2, k3) (named_bank t' snd' u _ e3 k3)
              | inr n3 ↦ elim (Bool-cases (bytes_eq rcv' u)) [
                | inl k4 ↦ rw (n1, n2, n3, k4) (named_bank t' rcv' u _ e4 k4)
                | inr n4 ↦ rw (n1, n2, n3, n4) (others u n1 n2 n3 n4)
              ]
            ]
          ]
        ],
      )

  abbrev one_by_one : List Bool
  one_by_one =
      true
      ∷ (true ∷ (true ∷ (true ∷ (true ∷ (false ∷ (false ∷ (false ∷ (false ∷ (false ∷ [])))))))))

  -- One thread after the other.
  one_by_one_lem :
      (t : Table)
      → (interleave st num one_by_one t (starting snd rcv pay) (starting snd' rcv' pay')).0
        ≡ (user_transaction st num (user_transaction st num t snd rcv pay).0 snd' rcv' pay').0
  unfolding interleave alone
  one_by_one_lem t =
      ap (λ z. (alone st num 5 z (starting snd' rcv' pay')).0)
        (alone-user_transaction st num t snd rcv pay).0
      ∙ (alone-user_transaction st num (user_transaction st num t snd rcv pay).0 snd' rcv' pay').0

  -- Two threads in `user_transaction` at once, each call of the storage being one turn, for four
  -- different users, in a table that fits the mapping and has no name twice, with transfers that
  -- would go through (the users are online, the amounts are positive and the balances cover them):
  -- whatever the order of the turns, with at least five for each thread, both end with success, and
  -- every account is as after one transfer behind the other.
  pub interleave-user_transaction :
      (turns : List Bool) (t : Table)
      → Apart
      → Going law num snd rcv s r pay
      → Going law num snd' rcv' s' r' pay'
      → IsValid law t
      → bank law t snd ≡ some s
      → bank law t rcv ≡ some r
      → bank law t snd' ≡ some s'
      → bank law t rcv' ≡ some r'
      → 5 ≤ firsts turns
      → 5 ≤ seconds turns
      → let (t', p', q') =
          interleave st num turns t (starting snd rcv pay) (starting snd' rcv' pay') in
        let t1 = (user_transaction st num t snd rcv pay).0 in
        let t2 = (user_transaction st num t1 snd' rcv' pay').0 in
        (p' ≡ finished transfer_ok)
        × (q' ≡ finished transfer_ok)
        × ((u : Bytes) → bank law t' u ≡ bank law t2 u)
  interleave-user_transaction turns t apart g g' v es er es' er' m n =
      let (ok, ok', accounts) = interleave-Settled turns t apart g g' v es er es' er' m n in
      let serial =
        (interleave-Settled one_by_one t apart g g' v es er es' er' (omega arith)
          (omega arith)).2 in
      (ok, ok', λ u. accounts u ∙ sym (serial u) ∙ ap (λ z. bank law z u) (one_by_one_lem t))
