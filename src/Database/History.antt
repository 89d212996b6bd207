-- ===== src/Database/History.antt =====
-- Any sequence of calls of the database.
use secure_person2person_p2p.Base.{
  ◌+◌, ◌*◌, ◌≤◌, ◌≡◌, inl, inr, ap, List, [], ◌∷◌, All, Bytes, ℤ, length, arith, length-append,
  Option-cases, Bool-cases, int_max, InInt, true,
}
use secure_person2person_p2p.Database.Storage.{Storage, IsStorage, columns}
use secure_person2person_p2p.Database.Amount.{Double, IsDouble}
use secure_person2person_p2p.Database.Operations.{
  initialise, user_register, user_login, user_logout, user_transaction, is_online, new_user,
  logged_in, logged_out,
}
use secure_person2person_p2p.Database.Spec.{IsValid, bank}
use secure_person2person_p2p.Database.Tables.{rows-replace}
use secure_person2person_p2p.Database.Refinement.{
  user_register_new, user_register_taken, user_login_lem, user_login_unknown,
}
use secure_person2person_p2p.Database.Sessions.{
  one-cases, connected, user_logout_none, user_logout_one, user_logout_many,
}
use secure_person2person_p2p.Database.Validity.{
  IsSound, user_register-IsSound, user_login-IsSound, user_logout-IsSound, length-update,
}
use secure_person2person_p2p.Database.Conservation.{user_transaction-IsSound, length-transaction}

-- The calls that change the table. Transfers are of whole amounts, as `p2p_transaction` sends them.
pub data Call : Type 0 where
  registers : Bytes → Bytes → Call
  logs_in : Bytes → Bytes → ℤ → ℤ → ℤ → Call
  logs_out : Bytes → ℤ → Call
  transfers : Bytes → Bytes → ℤ → Call

-- The amount of a transfer is an `int`.
abbrev pub Fits : Call → Type 0
Fits (transfers snd rcv a) = InInt a
Fits _ = Unit

module _ {Table D : Type 0} (st : Storage Table) (num : Double D) where
  unfoldable pub apply : Table → Call → Table
  apply t (registers u ip) = (user_register st t u ip).0
  apply t (logs_in u ip p q fd) = (user_login st t u ip p q fd).0
  apply t (logs_out ip p) = (user_logout st t ip p).0
  apply t (transfers snd rcv a) = (user_transaction st num t snd rcv (num.of_int a)).0

  unfoldable pub run : Table → List Call → Table
  run t [] = t
  run t (c ∷ cs) = run (apply t c) cs

module _ {Table D : Type 0} {st : Storage Table} (law : IsStorage st) {num : Double D}
    (ieee : IsDouble num) where
  length-register :
      (t : Table) (u ip : Bytes)
      → IsValid law t
      → length (law.rows (user_register st t u ip).0) ≤ length (law.rows t) + 1
  length-register t u ip v = elim (Option-cases (bank law t u)) [
    | inl e ↦
        rw (user_register_new law t u ip v e, rows-replace law (new_user u) t v e)
          (omega (arith, length-append (law.rows t) (columns (new_user u) ∷ [])))
    | inr (r, e) ↦ rw (user_register_taken law t u ip r v e) (omega arith)
  ]

  length-login :
      (t : Table) (u ip : Bytes) (p q fd : ℤ)
      → IsValid law t
      → length (law.rows (user_login st t u ip p q fd).0) ≡ length (law.rows t)
  length-login t u ip p q fd v = elim (Option-cases (bank law t u)) [
    | inl e ↦ rw (user_login_unknown law t u ip p q fd v e)
    | inr (r, e) ↦ elim (Bool-cases (is_online r)) [
      | inl on ↦ rw (user_login_lem law t u ip p q fd r v e, on)
      | inr off ↦
          rw (user_login_lem law t u ip p q fd r v e, off)
            (length-update law (logged_in (law.load r) ip p q fd) t v)
    ]
  ]

  length-logout :
      (t : Table) (ip : Bytes) (p : ℤ)
      → IsValid law t
      → length (law.rows (user_logout st t ip p).0) ≡ length (law.rows t)
  length-logout t ip p v = elim (one-cases (connected law t ip p)) [
    | inl e ↦ rw (user_logout_none law t ip p v e)
    | inr (inl (r, e)) ↦
        rw (user_logout_one law t ip p r v e) (length-update law (logged_out (law.load r)) t v)
    | inr (inr (r, s, rest, e)) ↦ rw (user_logout_many law t ip p r s rest v e)
  ]

  length-apply :
      (t : Table) (c : Call)
      → IsValid law t
      → length (law.rows (apply st num t c)) ≤ length (law.rows t) + 1
  unfolding apply
  length-apply t (registers u ip) v = length-register t u ip v
  length-apply t (logs_in u ip p q fd) v = omega (arith, length-login t u ip p q fd v)
  length-apply t (logs_out ip p) v = omega (arith, length-logout t ip p v)
  length-apply t (transfers snd rcv a) v =
      omega (arith, length-transaction law ieee t snd rcv (num.of_int a) v)

  apply-IsSound :
      (t : Table) (c : Call)
      → IsSound law t
      → 10000 * length (law.rows t) ≤ int_max
      → Fits c
      → IsSound law (apply st num t c)
  unfolding apply
  apply-IsSound t (registers u ip) v fits i = user_register-IsSound law t u ip v
  apply-IsSound t (logs_in u ip p q fd) v fits i = user_login-IsSound law t u ip p q fd v
  apply-IsSound t (logs_out ip p) v fits i = user_logout-IsSound law t ip p v
  apply-IsSound t (transfers snd rcv a) v fits i =
      user_transaction-IsSound law ieee t snd rcv a v fits i

  run-IsSound_from :
      (t : Table) (cs : List Call)
      → IsSound law t
      → 10000 * (length (law.rows t) + length cs) ≤ int_max
      → All Fits cs
      → IsSound law (run st num t cs)
  unfolding run
  run-IsSound_from t [] v fits i = v
  run-IsSound_from t (c ∷ cs) v fits i =
      run-IsSound_from (apply st num t c) cs (apply-IsSound t c v (omega arith) i.0)
        (omega (arith, length-apply t c v.valid)) i.1

  initialise-rows : (t : Table) → law.rows (initialise st t true) ≡ []
  unfolding initialise
  initialise-rows t = law.remove_all_rows (st.sync_schema t) (law.synced t)

  initialise-IsSound : (t : Table) → IsSound law (initialise st t true)
  unfolding initialise
  initialise-IsSound t =
      let e = initialise-rows t in
      record {
        valid = record {
          synced = law.remove_all_synced (st.sync_schema t) (law.synced t);
          unique = rw e tt;
        };
        nonneg = rw e tt;
        sessions = rw e tt;
        funded = rw e;
      }

  -- From a database that was reset, up to 214748 calls in any order, in which the amounts of the
  -- transfers are whole and fit an `int`, leave a sound table: no name stands twice, no balance is
  -- negative, every user is online or has no address, and all balances together are 10000 for each
  -- account.
  pub run-IsSound :
      (t : Table) (cs : List Call)
      → length cs ≤ 214748
      → All Fits cs
      → IsSound law (run st num (initialise st t true) cs)
  run-IsSound t cs n i =
      run-IsSound_from (initialise st t true) cs (initialise-IsSound t)
        (omega (arith, ap (length {0}) (initialise-rows t))) i
