-- ===== src/Database/Refinement.antt =====
-- The operations on the table do what the specification says of the map of accounts.
use mathlib.Core.Option
use secure_person2person_p2p.Base.{
  ◌≡◌, refl, ap, none, some, if◌then◌else◌, Bytes, ℤ, pos, arith, Bool-cases, Option-cases, inl,
  inr,
}
use secure_person2person_p2p.Database.Storage.{Row, Storage, IsStorage, columns}
use secure_person2person_p2p.Database.Operations.{
  user_register, user_login, user_info, is_online, new_user, register_ok, register_fail, logged_in,
  login_exist, login_success, login_auth_fail,
}
use secure_person2person_p2p.Database.Spec
use secure_person2person_p2p.Database.Spec.{IsValid, bank, Agrees, assign, new_account}
use secure_person2person_p2p.Database.Tables.{
  sync_lem, get_all-named, get_all-online, bank-replace, bank-update_named, load-username,
}

module _ {Table : Type 0} {st : Storage Table} (law : IsStorage st) where
  -- A name that is new.
  pub user_register_new :
      (t : Table) (u ip : Bytes)
      → IsValid law t
      → bank law t u ≡ none
      → user_register st t u ip ≡ (st.replace (new_user u) t, register_ok)
  unfolding user_register
  user_register_new t u ip v e = rw (sync_lem law t v, get_all-named law t u v, e)

  pub user_register_taken :
      (t : Table) (u ip : Bytes) (r : Row)
      → IsValid law t
      → bank law t u ≡ some r
      → user_register st t u ip ≡ (t, register_fail)
  unfolding user_register
  user_register_taken t u ip r v e = rw (sync_lem law t v, get_all-named law t u v, e)

  -- Where the table fits the mapping and has no name twice: registering a user adds an account with
  -- the initial balance if the name is new, and is refused and changes nothing if it is not.
  pub user_register-refines :
      (t : Table) (u ip : Bytes)
      → IsValid law t
      → let (t', s) = user_register st t u ip in
        Agrees (bank law t', s) (Spec.register (bank law t) u)
  unfolding Spec.register
  user_register-refines t u ip v = elim (Option-cases (bank law t u)) [
    | inl e ↦
        rw (user_register_new t u ip v e, e, Spec.register)
          (refl, λ w. bank-replace law (new_user u) t w v e)
    | inr (r, e) ↦ rw (user_register_taken t u ip r v e, e, Spec.register) (refl, λ w. refl)
  ]

  pub user_login_lem :
      (t : Table) (u ip : Bytes) (p q fd : ℤ) (r : Row)
      → IsValid law t
      → bank law t u ≡ some r
      → user_login st t u ip p q fd ≡ (
          if is_online r
          then (t, login_exist)
          else (st.update (logged_in (law.load r) ip p q fd) t, login_success))
  unfolding user_login
  user_login_lem t u ip p q fd r v e =
      rw
        (
          sync_lem law t v,
          get_all-named law t u v,
          e,
          user_login,
          sync_lem law t v,
          get_all-online law t u v,
          e,
        )
        (ground arith)

  pub user_login_unknown :
      (t : Table) (u ip : Bytes) (p q fd : ℤ)
      → IsValid law t
      → bank law t u ≡ none
      → user_login st t u ip p q fd ≡ (t, login_auth_fail)
  unfolding user_login
  user_login_unknown t u ip p q fd v e =
      rw (sync_lem law t v, get_all-named law t u v, e, user_login, sync_lem law t v)

  -- The account after a successful login.
  pub logged_in-columns :
      (r : Row) (ip : Bytes) (p q fd : ℤ)
      → columns (logged_in (law.load r) ip p q fd)
        ≡ record r { ip = ip; public_port = p; private_port = q; online_status = pos 1 }
  logged_in-columns r ip p q fd =
      ap
        (λ (x : Row). record x {
          ip = ip;
          public_port = p;
          private_port = q;
          online_status = pos 1;
        })
        (law.columns-load r)

  -- Where the table fits the mapping and has no name twice: a login is refused and changes nothing
  -- for an unknown name and for a user who is online; otherwise it writes the address and the ports
  -- into the account and marks it as online, and changes no other account.
  pub user_login-refines :
      (t : Table) (u ip : Bytes) (p q fd : ℤ)
      → IsValid law t
      → let (t', s) = user_login st t u ip p q fd in
        Agrees (bank law t', s) (Spec.login (bank law t) u ip p q)
  unfolding Spec.login
  user_login-refines t u ip p q fd v = elim (Option-cases (bank law t u)) [
    | inl e ↦ rw (user_login_unknown t u ip p q fd v e, e, Spec.login) (refl, λ w. refl)
    | inr (r, e) ↦ elim (Bool-cases (is_online r)) [
      | inl on ↦ rw (user_login_lem t u ip p q fd r v e, e, on, Spec.login) (refl, λ w. refl)
      | inr off ↦
          rw (user_login_lem t u ip p q fd r v e, e, off, Spec.login)
            (
              refl,
              λ w.
                  bank-update_named law (logged_in (law.load r) ip p q fd) t u r _ w v e
                    (load-username law t u r e) (logged_in-columns r ip p q fd),
            )
    ]
  ]

  -- The account of a known name is found, and no other.
  pub user_info_lem :
      (t : Table) (u : Bytes)
      → IsValid law t
      → user_info st t u ≡ (t, Option.map law.load (bank law t u))
  unfolding user_info
  user_info_lem t u v = elim (Option-cases (bank law t u)) [
    | inl e ↦ rw (sync_lem law t v, get_all-named law t u v, e, user_info, sync_lem law t v)
    | inr (r, e) ↦ rw (sync_lem law t v, get_all-named law t u v, e, user_info, sync_lem law t v)
  ]
