-- ===== src/Database/Conservation.antt =====
-- What any sequence of calls leaves of the money in the system.
use mathlib.Core.Path.{ap₂}
use secure_person2person_p2p.Base.{
  ◌*◌, ◌≤◌, ◌≡◌, ◌⊎◌, inl, inr, refl, sym, ap, ◌∙◌, true, false, ◌||◌, some, Bytes, bytes_eq, ℤ,
  pos, ◌+ℤ◌, ◌-ℤ◌, ◌≤ℤ◌, pos_part, neg_part, int_laws, length, arith, Bool-cases, Option-cases,
  int_max, InInt, leb_ℤ, -ℤ_parts, parts_disjoint,
}
use secure_person2person_p2p.Database.Storage.{Row, Storage, IsStorage}
use secure_person2person_p2p.Database.Amount.{Double, IsDouble}
use secure_person2person_p2p.Database.Operations.{user_transaction, transfer_ok, debited, credited}
use secure_person2person_p2p.Database.Total.{total, find-nonneg, balance-le-total}
use secure_person2person_p2p.Database.Spec
use secure_person2person_p2p.Database.Spec.{IsValid, bank, assign}
use secure_person2person_p2p.Database.Tables.{update-IsValid}
use secure_person2person_p2p.Database.Transfer.{
  moved, bank-moved, transaction_moved, bank-moved, transaction_refused, transaction_no_sender,
  transaction_no_receiver, online-some, or-false,
}
use secure_person2person_p2p.Database.Validity.{IsSound, length-update}
use secure_person2person_p2p.Database.Payments.{
  Covers, whole_positive, whole_covered, moved-IsSound, exact,
}

module _ {Table D : Type 0} {st : Storage Table} (law : IsStorage st) {num : Double D}
    (ieee : IsDouble num) where
  -- The tests of a whole amount that is positive and covered.
  passes :
      (a : ℤ) (snd rcv : Bytes)
      → pos 1 ≤ℤ a
      → InInt a
      → bytes_eq snd rcv ≡ false
      → (num.leb (num.of_int a) (num.of_int (pos 0)) || bytes_eq snd rcv) ≡ false
  passes a snd rcv p i ne = rw (ieee.leb_ints a (pos 0) i (omega arith), ne) (ground arith)

  whole_enough :
      (b a : ℤ)
      → Covers b a
      → num.ltb (num.sub (num.of_int b) (num.of_int a)) (num.of_int (pos 0)) ≡ false
  whole_enough b a c = ieee.leb-ltb _ _ (
      rw
        (
          ieee.sub_ints b a (omega int_laws) (omega int_laws),
          ieee.leb_ints (pos 0) (b -ℤ a) (omega arith) (omega int_laws),
        )
        (difference b a c))
    where
      difference : (b a : ℤ) → Covers b a → leb_ℤ (pos 0) (b -ℤ a) ≡ true
      difference b a c = ground (arith, -ℤ_parts b a, parts_disjoint (b -ℤ a))

  -- What makes a transfer go through.
  pub record Passes (t : Table) (snd rcv : Bytes) (pay : D) (s r : Row) : Type 0 where
    pub positive : num.leb pay (num.of_int (pos 0)) ≡ false
    pub differ : bytes_eq snd rcv ≡ false
    pub sender : bank law t snd ≡ some s
    pub receiver : bank law t rcv ≡ some r
    pub enough : num.ltb (num.sub (num.of_int s.balance) pay) (num.of_int (pos 0)) ≡ false
    pub after : user_transaction st num t snd rcv pay ≡ (moved law num t s r pay, transfer_ok)

  -- A transfer leaves the table alone, or goes through.
  pub transaction-cases :
      (t : Table) (snd rcv : Bytes) (pay : D)
      → IsValid law t
      → ((user_transaction st num t snd rcv pay).0 ≡ t)
        ⊎ ((s : Row) × (r : Row) × Passes t snd rcv pay s r)
  transaction-cases t snd rcv pay v =
      elim (Bool-cases (num.leb pay (num.of_int (pos 0)) || bytes_eq snd rcv)) [
        | inl e ↦ inl (rw (transaction_refused law num t snd rcv pay v e))
        | inr e ↦ elim (Option-cases (Spec.online (bank law t snd))) [
          | inl es ↦ inl (rw (transaction_no_sender law num t snd rcv pay v e es))
          | inr (s, es) ↦ elim (Option-cases (Spec.online (bank law t rcv))) [
            | inl er ↦ inl (rw (transaction_no_receiver law num t snd rcv pay s v e es er))
            | inr (r, er) ↦
                let found = transaction_moved law num t snd rcv pay s r v e es er in
                elim (Bool-cases
                  (num.ltb (num.sub (num.of_int s.balance) pay) (num.of_int (pos 0)))) [
                    | inl low ↦ inl (rw (found, low))
                    | inr enough ↦ inr (
                      s,
                      r,
                      record {
                        positive = (or-false _ _ e).0;
                        differ = (or-false _ _ e).1;
                        sender = (online-some _ s es).0;
                        receiver = (online-some _ r er).0;
                        enough = enough;
                        after = found ∙ rw enough;
                      },
                    )
                  ]
          ]
        ]
      ]

  covered :
      (t : Table) (snd rcv : Bytes) (a : ℤ) (s r : Row)
      → IsSound law t
      → 10000 * length (law.rows t) ≤ int_max
      → InInt a
      → Passes t snd rcv (num.of_int a) s r
      → Covers s.balance a
  covered t snd rcv a s r v fits i h =
      let low = balance-le-total snd (law.rows t) s v.nonneg h.sender in
      let f = v.funded in
      whole_covered ieee s.balance a (find-nonneg snd (law.rows t) s v.nonneg h.sender)
        (omega (int_laws, low, ap pos_part f, ap neg_part f)) (whole_positive ieee a i h.positive) i
        h.enough

  -- A transfer of a whole amount keeps the invariant, whether it goes through or not.
  pub user_transaction-IsSound :
      (t : Table) (snd rcv : Bytes) (a : ℤ)
      → IsSound law t
      → 10000 * length (law.rows t) ≤ int_max
      → InInt a
      → IsSound law (user_transaction st num t snd rcv (num.of_int a)).0
  user_transaction-IsSound t snd rcv a v fits i =
      elim (transaction-cases t snd rcv (num.of_int a) v.valid) [
        | inl e ↦ rw e v
        | inr (s, r, h) ↦ rw (h.after) (
            moved-IsSound law ieee t snd rcv s r a v fits h.differ h.sender h.receiver
              (covered t snd rcv a s r v fits i h))
      ]

  pub length-transaction :
      (t : Table) (snd rcv : Bytes) (pay : D)
      → IsValid law t
      → length (law.rows (user_transaction st num t snd rcv pay).0) ≡ length (law.rows t)
  length-transaction t snd rcv pay v = elim (transaction-cases t snd rcv pay v) [
    | inl e ↦ rw e
    | inr (s, r, h) ↦
        let first = debited st num (law.load s) pay in
        rw (h.after) (
          length-update law (credited st num (law.load r) pay) (st.update first t)
            (update-IsValid law first t v)
          ∙ length-update law first t v)
  ]

  -- In a sound table of at most 214748 accounts, a transfer of a whole amount that fits an `int`
  -- leaves the sum of the balances as it was, on every branch.
  pub user_transaction_conserves :
      (t : Table) (snd rcv : Bytes) (a : ℤ)
      → IsSound law t
      → 10000 * length (law.rows t) ≤ int_max
      → InInt a
      → total (law.rows (user_transaction st num t snd rcv (num.of_int a)).0) ≡ total (law.rows t)
  user_transaction_conserves t snd rcv a v fits i =
      (user_transaction-IsSound t snd rcv a v fits i).funded
      ∙ ap (λ n. pos (10000 * n)) (length-transaction t snd rcv (num.of_int a) v.valid)
      ∙ sym v.funded

  -- In a sound table of at most 214748 accounts, a whole amount that is positive and that the
  -- sender's balance covers goes from one user who is online to another: the call reports success,
  -- the two balances change by the amount, and no other account changes.
  pub user_transaction_moves :
      (t : Table) (snd rcv : Bytes) (a : ℤ) (s r : Row)
      → IsSound law t
      → 10000 * length (law.rows t) ≤ int_max
      → bytes_eq snd rcv ≡ false
      → Spec.online (bank law t snd) ≡ some s
      → Spec.online (bank law t rcv) ≡ some r
      → pos 1 ≤ℤ a
      → a ≤ℤ s.balance
      → let (t', q) = user_transaction st num t snd rcv (num.of_int a) in
        (q ≡ transfer_ok)
        × ((w : Bytes)
            → bank law t' w
              ≡ assign
                  (assign (bank law t) snd (record s { balance = s.balance -ℤ a }))
                  rcv
                  (record r { balance = r.balance +ℤ a })
                  w)
  user_transaction_moves t snd rcv a s r v fits ne es er p le =
      let ks = (online-some (bank law t snd) s es).0 in
      let kr = (online-some (bank law t rcv) r er).0 in
      let low = balance-le-total snd (law.rows t) s v.nonneg ks in
      let f = v.funded in
      let c : Covers s.balance a = (p, le, omega (int_laws, low, ap pos_part f, ap neg_part f)) in
      let x = exact law ieee t snd rcv s r a v fits ne ks kr c in
      let pay = num.of_int a in
      rw
        (
          transaction_moved law num t snd rcv pay s r v.valid
              (passes a snd rcv p (omega int_laws) ne) es er,
          whole_enough s.balance a c,
        )
        (
          refl,
          λ w.
              bank-moved law num t snd rcv s r pay w v.valid ne ks kr
              ∙ ap₂
                  (λ b d.
                    assign (assign (bank law t) snd (record s { balance = b })) rcv
                      (record r { balance = d }) w)
                  x.out x.into,
        )
