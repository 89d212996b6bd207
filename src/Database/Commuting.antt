-- ===== src/Database/Commuting.antt =====
-- Two transfers in either order.
use secure_person2person_p2p.Base.{
  ◌*◌, ◌≤◌, ◌≡◌, refl, sym, ap, ◌∙◌, subst, Bool-cases, false, inl, inr, Option, none, some,
  if◌then◌else◌, Bytes, bytes_eq, bytes_eq_iff, ℤ, pos, ◌+ℤ◌, ◌-ℤ◌, ◌≤ℤ◌, InInt, int_max, int_laws,
  length,
}
use secure_person2person_p2p.Database.Storage.{Row, Storage, IsStorage}
use secure_person2person_p2p.Database.Amount.{Double, IsDouble}
use secure_person2person_p2p.Database.Operations.{user_transaction, transfer_ok, is_online}
use secure_person2person_p2p.Database.Spec
use secure_person2person_p2p.Database.Spec.{bank, assign}
use secure_person2person_p2p.Database.Validity.{IsSound}
use secure_person2person_p2p.Database.Conservation.{
  length-transaction, user_transaction-IsSound, user_transaction_moves,
}

-- What a transfer does to the balance of a user.
abbrev pub delta : Bytes → Bytes → ℤ → Bytes → ℤ
delta snd rcv a u = if bytes_eq rcv u then a else if bytes_eq snd u then pos 0 -ℤ a else pos 0

abbrev pub shift : ℤ → Row → Row
shift d r = record r { balance = r.balance +ℤ d }

abbrev shifted : ℤ → Option Row → Option Row
shifted d none = none
shifted d (some r) = some (shift d r)

shift-zero : (o : Option Row) → o ≡ shifted (pos 0) o
shift-zero none = refl
shift-zero (some r) = ap (λ b. some (record r { balance = b })) (omega int_laws)

minus_lem : (b a : ℤ) → b -ℤ a ≡ b +ℤ (pos 0 -ℤ a)
minus_lem b a = omega int_laws

swap_lem : (b c d : ℤ) → (b +ℤ c) +ℤ d ≡ (b +ℤ d) +ℤ c
swap_lem b c d = omega int_laws

shifted-shifted : (c d : ℤ) (o : Option Row) → shifted d (shifted c o) ≡ shifted c (shifted d o)
shifted-shifted c d none = refl
shifted-shifted c d (some r) = ap (λ b. some (record r { balance = b })) (swap_lem r.balance c d)

online-shifted : (d : ℤ) (o : Option Row) → Spec.online (shifted d o) ≡ shifted d (Spec.online o)
online-shifted d none = refl
online-shifted d (some r) = elim (Bool-cases (is_online r)) [ inl e ↦ rw e | inr e ↦ rw e ]

assign-shifted :
    (b : Spec.Bank) (snd rcv : Bytes) (a : ℤ) (s r : Row) (u : Bytes)
    → b snd ≡ some s
    → b rcv ≡ some r
    → assign
        (assign b snd (record s { balance = s.balance -ℤ a }))
        rcv
        (record r { balance = r.balance +ℤ a })
        u
      ≡ shifted (delta snd rcv a u) (b u)
assign-shifted b snd rcv a s r u es er = elim (Bool-cases (bytes_eq rcv u)) [
  | inl e ↦ let same : b u ≡ some r = ap b (sym ((bytes_eq_iff rcv u).0 e)) ∙ er in rw (e, same)
  | inr e ↦ elim (Bool-cases (bytes_eq snd u)) [
    | inl k ↦
        let same : b u ≡ some s = ap b (sym ((bytes_eq_iff snd u).0 k)) ∙ es in
        rw (e, k, same) (ap (λ z. some (record s { balance = z })) (minus_lem s.balance a))
    | inr k ↦ rw (e, k) (shift-zero (b u))
  ]
]

module _ {Table D : Type 0} {st : Storage Table} (law : IsStorage st) {num : Double D}
    (ieee : IsDouble num) where
  abbrev transfer : Table → Bytes → Bytes → ℤ → Table × ℤ
  transfer t snd rcv a = user_transaction st num t snd rcv (num.of_int a)

  -- A user who is online is known.
  known : (o : Option Row) (r : Row) → Spec.online o ≡ some r → o ≡ some r
  known none r e = absurd cc
  known (some x) r e = elim (Bool-cases (is_online x)) [
    | inl on ↦ sym (rw on refl) ∙ e
    | inr off ↦ absurd cc
  ]

  transfer-delta :
      (t : Table) (snd rcv : Bytes) (a : ℤ) (s r : Row)
      → IsSound law t
      → 10000 * length (law.rows t) ≤ int_max
      → bytes_eq snd rcv ≡ false
      → Spec.online (bank law t snd) ≡ some s
      → Spec.online (bank law t rcv) ≡ some r
      → pos 1 ≤ℤ a
      → a ≤ℤ s.balance
      → ((transfer t snd rcv a).1 ≡ transfer_ok)
        × ((u : Bytes)
            → bank law (transfer t snd rcv a).0 u ≡ shifted (delta snd rcv a u) (bank law t u))
  transfer-delta t snd rcv a s r v few ne es er p le =
      let (ok, moved) = user_transaction_moves law ieee t snd rcv a s r v few ne es er p le in
      (ok, λ u. moved u ∙ assign-shifted (bank law t) snd rcv a s r u (known _ s es) (known _ r er))

  -- A second transfer behind the first.
  transfer-transfer :
      (t : Table) (snd rcv snd' rcv' : Bytes) (a a' : ℤ) (s r s' r' : Row)
      → IsSound law t
      → 10000 * length (law.rows t) ≤ int_max
      → InInt a
      → bytes_eq snd rcv ≡ false
      → bytes_eq snd' rcv' ≡ false
      → Spec.online (bank law t snd) ≡ some s
      → Spec.online (bank law t rcv) ≡ some r
      → Spec.online (bank law t snd') ≡ some s'
      → Spec.online (bank law t rcv') ≡ some r'
      → pos 1 ≤ℤ a
      → pos 1 ≤ℤ a'
      → a ≤ℤ s.balance
      → a' ≤ℤ s'.balance +ℤ delta snd rcv a snd'
      → let (t', q) = transfer t snd rcv a in
        let (t'', q') = transfer t' snd' rcv' a' in
        (q ≡ transfer_ok)
        × (q' ≡ transfer_ok)
        × ((u : Bytes)
            → bank law t'' u
              ≡ shifted (delta snd' rcv' a' u) (shifted (delta snd rcv a u) (bank law t u)))
  transfer-transfer t snd rcv snd' rcv' a a' s r s' r' v few i ne ne' es er es' er' p p' le le' =
      let (ok, moved) = transfer-delta t snd rcv a s r v few ne es er p le in
      let t' = (transfer t snd rcv a).0 in
      let online_after : (u : Bytes) (x : Row)
          → Spec.online (bank law t u) ≡ some x
          → Spec.online (bank law t' u) ≡ some (shift (delta snd rcv a u) x) =
        λ u x e.
          ap Spec.online (moved u)
          ∙ online-shifted (delta snd rcv a u) (bank law t u)
          ∙ ap (shifted (delta snd rcv a u)) e in
      let (ok', moved') =
        transfer-delta t' snd' rcv' a' _ _ (user_transaction-IsSound law ieee t snd rcv a v few i)
          (subst (λ n. 10000 * n ≤ int_max)
            (sym (length-transaction law ieee t snd rcv (num.of_int a) v.valid)) few)
          ne' (online_after snd' s' es') (online_after rcv' r' er') p' le' in
      (ok, ok', λ u. moved' u ∙ ap (shifted (delta snd' rcv' a' u)) (moved u))

  -- In a sound table of at most 214748 accounts, two transfers of whole amounts of at least 1, each
  -- between two different users who are online, where each sender's balance covers the amount both as
  -- it is and after the other transfer: in either order both succeed, and every account is the same in
  -- the end, also where the two have users in common.
  pub user_transaction-user_transaction :
      (t : Table) (snd rcv snd' rcv' : Bytes) (a a' : ℤ) (s r s' r' : Row)
      → IsSound law t
      → 10000 * length (law.rows t) ≤ int_max
      → InInt a
      → InInt a'
      → bytes_eq snd rcv ≡ false
      → bytes_eq snd' rcv' ≡ false
      → Spec.online (bank law t snd) ≡ some s
      → Spec.online (bank law t rcv) ≡ some r
      → Spec.online (bank law t snd') ≡ some s'
      → Spec.online (bank law t rcv') ≡ some r'
      → pos 1 ≤ℤ a
      → pos 1 ≤ℤ a'
      → a ≤ℤ s.balance
      → a' ≤ℤ s'.balance
      → a ≤ℤ s.balance +ℤ delta snd' rcv' a' snd
      → a' ≤ℤ s'.balance +ℤ delta snd rcv a snd'
      → let (t1, q1) = user_transaction st num t snd rcv (num.of_int a) in
        let (t2, q2) = user_transaction st num t1 snd' rcv' (num.of_int a') in
        let (t3, q3) = user_transaction st num t snd' rcv' (num.of_int a') in
        let (t4, q4) = user_transaction st num t3 snd rcv (num.of_int a) in
        (q1 ≡ transfer_ok)
        × (q2 ≡ transfer_ok)
        × (q3 ≡ transfer_ok)
        × (q4 ≡ transfer_ok)
        × ((u : Bytes) → bank law t2 u ≡ bank law t4 u)
  user_transaction-user_transaction t snd rcv snd' rcv' a a' s r s' r' v few i i' ne ne' es er es'
        er' p p' le le' after after' =
      let (ok1, ok2, one) =
        transfer-transfer t snd rcv snd' rcv' a a' s r s' r' v few i ne ne' es er es' er' p p' le
          after' in
      let (ok3, ok4, other) =
        transfer-transfer t snd' rcv' snd rcv a' a s' r' s r v few i' ne' ne es' er' es er p' p le'
          after in
      (
        ok1,
        ok2,
        ok3,
        ok4,
        λ u.
            one u
            ∙ shifted-shifted (delta snd rcv a u) (delta snd' rcv' a' u) (bank law t u)
            ∙ sym (other u),
      )
