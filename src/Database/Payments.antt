-- ===== src/Database/Payments.antt =====
-- Transfers of whole amounts, such as the clients send: no money is made or lost.
use secure_person2person_p2p.Base.{
  ◌*◌, ◌≤◌, ◌≡◌, sym, ap, subst, ◌∙◌, true, false, some, All, Bytes, bytes_eq, ℤ, pos, ◌+ℤ◌, ◌-ℤ◌,
  ◌≤ℤ◌, pos_part, neg_part, int_laws, length, arith, int_max, InInt, leb_ℤ, -ℤ_parts,
}
use secure_person2person_p2p.Database.Storage.{Client, Row, Storage, IsStorage, columns}
use secure_person2person_p2p.Database.Amount.{Double, IsDouble}
use secure_person2person_p2p.Database.Operations.{debited, credited}
use secure_person2person_p2p.Database.Total.{
  total, AllNonneg, AllNonneg-overwrite, find-nonneg, balances-le-total,
}
use secure_person2person_p2p.Database.Spec.{IsValid, bank}
use secure_person2person_p2p.Database.Tables.{update-IsValid, load-username}
use secure_person2person_p2p.Database.Transfer.{paid, received, moved, bank-debited}
use secure_person2person_p2p.Database.Validity.{
  IsSound, IsSession, All-overwrite, All-find, total-update, length-update,
}

abbrev pub Covers : ℤ → ℤ → Type 0
Covers b a = (pos 1 ≤ℤ a) × (a ≤ℤ b) × (b ≤ℤ pos int_max)

module _ {D : Type 0} {num : Double D} (ieee : IsDouble num) where
  -- A whole amount is subtracted and added exactly.
  pub paid_whole :
      (b a : ℤ) → Covers b a → num.to_int (num.sub (num.of_int b) (num.of_int a)) ≡ b -ℤ a
  paid_whole b a h =
      ap num.to_int (ieee.sub_ints b a (omega int_laws) (omega int_laws))
      ∙ ieee.to_int_of_int (b -ℤ a) (omega int_laws)

  pub received_whole :
      (b a : ℤ)
      → pos 0 ≤ℤ b
      → pos 0 ≤ℤ a
      → b +ℤ a ≤ℤ pos int_max
      → num.to_int (num.add (num.of_int b) (num.of_int a)) ≡ b +ℤ a
  received_whole b a p q h =
      ap num.to_int (ieee.add_ints b a (omega int_laws) (omega int_laws))
      ∙ ieee.to_int_of_int (b +ℤ a) (omega int_laws)

  -- The two tests of a transfer, on whole amounts.
  pub whole_positive :
      (a : ℤ) → InInt a → num.leb (num.of_int a) (num.of_int (pos 0)) ≡ false → pos 1 ≤ℤ a
  whole_positive a h e =
      let k : leb_ℤ a (pos 0) ≡ false = sym (ieee.leb_ints a (pos 0) h (omega arith)) ∙ e in
      ground arith

  pub whole_covered :
      (b a : ℤ)
      → pos 0 ≤ℤ b
      → b ≤ℤ pos int_max
      → pos 1 ≤ℤ a
      → InInt a
      → num.ltb (num.sub (num.of_int b) (num.of_int a)) (num.of_int (pos 0)) ≡ false
      → Covers b a
  whole_covered b a p q h i e =
      let k : leb_ℤ (pos 0) (b -ℤ a) ≡ true =
        sym (ieee.leb_ints (pos 0) (b -ℤ a) (omega arith) (omega int_laws))
        ∙ ieee.ltb-leb _ _ (ieee.of_int_number (b -ℤ a)) (ieee.of_int_number (pos 0)) (
            ap (λ x. num.ltb x (num.of_int (pos 0))) (sym (ieee.sub_ints b a (omega int_laws) i))
            ∙ e) in
      (h, covered b a k, q)
    where
      covered : (b a : ℤ) → leb_ℤ (pos 0) (b -ℤ a) ≡ true → a ≤ℤ b
      covered b a k = ground (arith, -ℤ_parts b a)

module _ {Table D : Type 0} {st : Storage Table} (law : IsStorage st) {num : Double D}
    (ieee : IsDouble num) where
  -- The two updates of a whole transfer move the amount.
  pub record Exact (t : Table) (s r : Row) (a : ℤ) : Type 0 where
    pub out : (paid law num s (num.of_int a)).balance ≡ s.balance -ℤ a
    pub into : (received law num r (num.of_int a)).balance ≡ r.balance +ℤ a
    pub left : pos 0 ≤ℤ s.balance -ℤ a
    pub grown : pos 0 ≤ℤ r.balance +ℤ a

  pub exact :
      (t : Table) (snd rcv : Bytes) (s r : Row) (a : ℤ)
      → IsSound law t
      → 10000 * length (law.rows t) ≤ int_max
      → bytes_eq snd rcv ≡ false
      → bank law t snd ≡ some s
      → bank law t rcv ≡ some r
      → Covers s.balance a
      → Exact t s r a
  exact t snd rcv s r a v fits ne es er c =
      let both = balances-le-total snd rcv (law.rows t) s r v.nonneg ne es er in
      let rest = find-nonneg rcv (law.rows t) r v.nonneg er in
      let f = v.funded in
      record {
        out = paid_whole ieee s.balance a c;
        into =
            received_whole ieee r.balance a rest (omega int_laws)
              (omega (int_laws, both, ap pos_part f, ap neg_part f));
        left = omega int_laws;
        grown = omega int_laws;
      }

  -- An update of one account, with what it does to the invariant but for the sum.
  record Changed (t : Table) (c : Client) (r new : Row) : Type 0 where
    name : bank law t c.username ≡ some r
    row : columns c ≡ new
    nonneg : pos 0 ≤ℤ new.balance
    session : IsSession new

  update-nonneg :
      (c : Client) (t : Table) (r new : Row)
      → IsValid law t
      → Changed t c r new
      → AllNonneg (law.rows t)
      → AllNonneg (law.rows (st.update c t))
  update-nonneg c t r new v h n = rw (law.update_rows c t v.synced) (
      AllNonneg-overwrite c (law.rows t) n
        (subst (λ (x : Row). pos 0 ≤ℤ x.balance) (sym h.row) h.nonneg))

  update-sessions :
      (c : Client) (t : Table) (r new : Row)
      → IsValid law t
      → Changed t c r new
      → All IsSession (law.rows t)
      → All IsSession (law.rows (st.update c t))
  update-sessions c t r new v h n =
      rw (law.update_rows c t v.synced)
        (All-overwrite IsSession c (law.rows t) n (subst IsSession (sym h.row) h.session))

  update-total :
      (c : Client) (t : Table) (r new : Row)
      → IsValid law t
      → Changed t c r new
      → total (law.rows (st.update c t)) +ℤ r.balance ≡ total (law.rows t) +ℤ new.balance
  update-total c t r new v h =
      total-update law c t r v h.name ∙ ap (λ (x : Row). total (law.rows t) +ℤ x.balance) h.row

  -- Two updates that move an amount from one account to another keep the table sound.
  two-IsSound :
      (t : Table) (c d : Client) (s s' r r' : Row) (a : ℤ)
      → IsSound law t
      → Changed t c s s'
      → Changed (st.update c t) d r r'
      → s'.balance ≡ s.balance -ℤ a
      → r'.balance ≡ r.balance +ℤ a
      → IsSound law (st.update d (st.update c t))
  two-IsSound t c d s s' r r' a v h k out into =
      let v1 = update-IsValid law c t v.valid in
      record {
        valid = update-IsValid law d (st.update c t) v1;
        nonneg =
            update-nonneg d (st.update c t) r r' v1 k (update-nonneg c t s s' v.valid h v.nonneg);
        sessions =
            update-sessions d (st.update c t) r r' v1 k
              (update-sessions c t s s' v.valid h v.sessions);
        funded =
            same _ _ _ s.balance s'.balance r.balance r'.balance a (update-total c t s s' v.valid h)
              (update-total d (st.update c t) r r' v1 k) out into
            ∙ v.funded
            ∙ ap (λ n. pos (10000 * n))
                (sym (length-update law d (st.update c t) v1 ∙ length-update law c t v.valid));
      }
    where
      same :
          (x y z s s' r r' a : ℤ)
          → y +ℤ s ≡ x +ℤ s'
          → z +ℤ r ≡ y +ℤ r'
          → s' ≡ s -ℤ a
          → r' ≡ r +ℤ a
          → z ≡ x
      same x y z s s' r r' a e f g h = omega (
        int_laws,
        ap pos_part e,
        ap neg_part e,
        ap pos_part f,
        ap neg_part f,
        ap pos_part g,
        ap neg_part g,
        ap pos_part h,
        ap neg_part h,
      )

  pub moved-IsSound :
      (t : Table) (snd rcv : Bytes) (s r : Row) (a : ℤ)
      → IsSound law t
      → 10000 * length (law.rows t) ≤ int_max
      → bytes_eq snd rcv ≡ false
      → bank law t snd ≡ some s
      → bank law t rcv ≡ some r
      → Covers s.balance a
      → IsSound law (moved law num t s r (num.of_int a))
  moved-IsSound t snd rcv s r a v fits ne es er c =
      let x = exact t snd rcv s r a v fits ne es er c in
      let pay = num.of_int a in
      let first = debited st num (law.load s) pay in
      two-IsSound t first (credited st num (law.load r) pay) s (paid law num s pay) r
        (received law num r pay) a v
        (record {
          name = ap (bank law t) (load-username law t snd s es) ∙ es;
          row = ap (λ y. paid law num y pay) (law.columns-load s);
          nonneg = subst (λ b. pos 0 ≤ℤ b) (sym x.out) x.left;
          session = All-find IsSession snd (law.rows t) s v.sessions es;
        })
        (record {
          name =
              ap (bank law (st.update first t)) (load-username law t rcv r er)
              ∙ bank-debited law num t snd s pay rcv v.valid es
              ∙ rw ne er;
          row = ap (λ y. received law num y pay) (law.columns-load r);
          nonneg = subst (λ b. pos 0 ≤ℤ b) (sym x.into) x.grown;
          session = All-find IsSession rcv (law.rows t) r v.sessions er;
        })
        x.out x.into
