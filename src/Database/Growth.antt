-- ===== src/Database/Growth.antt =====
-- Tables that may outgrow the bound on the number of accounts: valid for ever, sound up to the bound.
use secure_person2person_p2p.Base.{
  ◌*◌, ◌≤◌, ◌≡◌, inl, inr, [], ◌∷◌, Bytes, ℤ, length, length-append, arith, Option-cases,
  Bool-cases, int_max, InInt, Bool, true, false, ap,
}
use secure_person2person_p2p.Database.Storage.{Storage, IsStorage, Client, columns}
use secure_person2person_p2p.Database.Amount.{Double, IsDouble}
use secure_person2person_p2p.Database.Operations.{
  user_register, user_login, user_logout, user_transaction, user_info, list, user_num,
  user_list_info, is_online, new_user, logged_in, logged_out, debited,
}
use secure_person2person_p2p.Database.Spec.{IsValid, bank}
use secure_person2person_p2p.Database.Tables.{
  rows-replace, replace-IsValid, update-IsValid, sync_lem,
}
use secure_person2person_p2p.Database.Refinement.{
  user_register_new, user_register_taken, user_login_lem, user_login_unknown, user_info_lem,
}
use secure_person2person_p2p.Database.Sessions.{
  one-cases, connected, user_logout_none, user_logout_one, user_logout_many,
}
use secure_person2person_p2p.Database.Validity.{
  IsSound, user_register-IsSound, user_login-IsSound, user_logout-IsSound, length-update,
}
use secure_person2person_p2p.Database.Conservation.{
  transaction-cases, user_transaction-IsSound, length-transaction,
}

-- The table is valid, and sound as long as all balances together fit an `int`.
pub record IsSane {Table : Type 0} {st : Storage Table} (law : IsStorage st) (t : Table)
    : Type 0 where
  pub valid : IsValid law t
  pub sound : 10000 * length (law.rows t) ≤ int_max → IsSound law t

module _ {Table : Type 0} {st : Storage Table} (law : IsStorage st) where
  pub sound-IsSane : (t : Table) → IsSound law t → IsSane law t
  sound-IsSane t s = record { valid = s.valid; sound = λ h. s }

  -- A call that removes no account.
  grows-IsSane :
      (t t' : Table)
      → IsSane law t
      → IsValid law t'
      → length (law.rows t) ≤ length (law.rows t')
      → (IsSound law t → 10000 * length (law.rows t) ≤ int_max → IsSound law t')
      → IsSane law t'
  grows-IsSane t t' s v n f = record {
    valid = v;
    sound = λ h.
        let small : 10000 * length (law.rows t) ≤ int_max = omega arith in f (s.sound small) small;
  }

  register-IsValid :
      (t : Table) (u ip : Bytes)
      → IsValid law t
      → IsValid law (user_register st t u ip).0
        × (length (law.rows t) ≤ length (law.rows (user_register st t u ip).0))
  register-IsValid t u ip v = elim (Option-cases (bank law t u)) [
    | inl e ↦ rw (user_register_new law t u ip v e) (
      replace-IsValid law (new_user u) t v e,
      rw (rows-replace law (new_user u) t v e)
          (omega (arith, length-append (law.rows t) (columns (new_user u) ∷ []))),
    )
    | inr (r, e) ↦ rw (user_register_taken law t u ip r v e) (v, omega arith)
  ]

  pub user_register-IsSane :
      (t : Table) (u ip : Bytes) → IsSane law t → IsSane law (user_register st t u ip).0
  user_register-IsSane t u ip s =
      let (v, n) = register-IsValid t u ip s.valid in
      grows-IsSane t _ s v n (λ k h. user_register-IsSound law t u ip k)

  -- An update of one row.
  update_keeps :
      (c : Client) (t : Table)
      → IsValid law t
      → IsValid law (st.update c t) × (length (law.rows t) ≤ length (law.rows (st.update c t)))
  update_keeps c t v = (update-IsValid law c t v, omega (arith, length-update law c t v))

  login-IsValid :
      (t : Table) (u ip : Bytes) (p q fd : ℤ)
      → IsValid law t
      → IsValid law (user_login st t u ip p q fd).0
        × (length (law.rows t) ≤ length (law.rows (user_login st t u ip p q fd).0))
  login-IsValid t u ip p q fd v = elim (Option-cases (bank law t u)) [
    | inl e ↦ rw (user_login_unknown law t u ip p q fd v e) (v, omega arith)
    | inr (r, e) ↦ elim (Bool-cases (is_online r)) [
      | inl on ↦ rw (user_login_lem law t u ip p q fd r v e, on) (v, omega arith)
      | inr off ↦
          rw (user_login_lem law t u ip p q fd r v e, off)
            (update_keeps (logged_in (law.load r) ip p q fd) t v)
    ]
  ]

  pub user_login-IsSane :
      (t : Table) (u ip : Bytes) (p q fd : ℤ)
      → IsSane law t
      → IsSane law (user_login st t u ip p q fd).0
  user_login-IsSane t u ip p q fd s =
      let (v, n) = login-IsValid t u ip p q fd s.valid in
      grows-IsSane t _ s v n (λ k h. user_login-IsSound law t u ip p q fd k)

  logout-IsValid :
      (t : Table) (ip : Bytes) (p : ℤ)
      → IsValid law t
      → IsValid law (user_logout st t ip p).0
        × (length (law.rows t) ≤ length (law.rows (user_logout st t ip p).0))
  logout-IsValid t ip p v = elim (one-cases (connected law t ip p)) [
    | inl e ↦ rw (user_logout_none law t ip p v e) (v, omega arith)
    | inr (inl (r, e)) ↦
        rw (user_logout_one law t ip p r v e) (update_keeps (logged_out (law.load r)) t v)
    | inr (inr (r, s, rest, e)) ↦ rw (user_logout_many law t ip p r s rest v e) (v, omega arith)
  ]

  pub user_logout-IsSane :
      (t : Table) (ip : Bytes) (p : ℤ) → IsSane law t → IsSane law (user_logout st t ip p).0
  user_logout-IsSane t ip p s =
      let (v, n) = logout-IsValid t ip p s.valid in
      grows-IsSane t _ s v n (λ k h. user_logout-IsSound law t ip p k)

  -- The calls that only read leave a valid table as it is.
  pub user_info-idle : (t : Table) (u : Bytes) → IsValid law t → (user_info st t u).0 ≡ t
  user_info-idle t u v = ap (λ x. x.0) (user_info_lem law t u v)

  pub list-idle : (t : Table) (online : Bool) → IsValid law t → (list st t online).0 ≡ t
  unfolding list
  list-idle t true v = sync_lem law t v
  list-idle t false v = sync_lem law t v

  pub user_num-idle : (t : Table) (online : Bool) → IsValid law t → (user_num st t online).0 ≡ t
  unfolding user_num list
  user_num-idle t true v = sync_lem law t v
  user_num-idle t false v = sync_lem law t v

  pub user_list_info-idle : (t : Table) → IsValid law t → (user_list_info st t).0 ≡ t
  unfolding user_list_info list
  user_list_info-idle t v = sync_lem law t v

module _ {Table D : Type 0} {st : Storage Table} (law : IsStorage st) {num : Double D}
    (ieee : IsDouble num) where
  pub transaction-IsValid :
      (t : Table) (snd rcv : Bytes) (pay : D)
      → IsValid law t
      → IsValid law (user_transaction st num t snd rcv pay).0
  transaction-IsValid t snd rcv pay v = elim (transaction-cases law ieee t snd rcv pay v) [
    | inl e ↦ rw e v
    | inr (s, r, h) ↦
        rw (h.after)
          (update-IsValid law _ _ (update-IsValid law (debited st num (law.load s) pay) t v))
  ]

  pub user_transaction-IsSane :
      (t : Table) (snd rcv : Bytes) (a : ℤ)
      → InInt a
      → IsSane law t
      → IsSane law (user_transaction st num t snd rcv (num.of_int a)).0
  user_transaction-IsSane t snd rcv a i s =
      let n = length-transaction law ieee t snd rcv (num.of_int a) s.valid in
      grows-IsSane law t _ s (transaction-IsValid t snd rcv (num.of_int a) s.valid) (omega arith)
        (λ k h. user_transaction-IsSound law ieee t snd rcv a k h i)
