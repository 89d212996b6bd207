-- ===== src/Database/Logins.antt =====
-- A login and the logout of its connection, and what goes wrong when a connection logs in twice.
use secure_person2person_p2p.Base.{
  ◌≡◌, ◌+◌, refl, ap, ◌∙◌, true, false, [], ◌∷◌, Option, some, if◌then◌else◌, keep, Bytes, bytes_eq,
  bytes_eq_refl, ℤ, pos, negsuc, arith, length, eq_ℤ,
}
use secure_person2person_p2p.Database.Storage.{Row, Storage, IsStorage}
use secure_person2person_p2p.Database.Operations.{
  user_logout, user_login, logged_in, connected_from, login_success, logout_success, logout_fail,
  is_online,
}
use secure_person2person_p2p.Database.Rows.{
  length-keep-overwrite, keep-overwrite_only, find-username,
}
use secure_person2person_p2p.Database.Spec.{IsValid, bank, assign}
use secure_person2person_p2p.Database.Tables.{bank-update_named, load-username, update-IsValid}
use secure_person2person_p2p.Database.Refinement.{user_login_lem, logged_in-columns}
use secure_person2person_p2p.Database.Sessions.{
  closed, connected, user_logout-closes, user_logout-stuck,
}

assign_over :
    (b : Bytes → Option Row) (u : Bytes) (x y : Row) (w : Bytes)
    → assign (assign b u x) u y w ≡ assign b u y w
assign_over b u x y w = ground arith

eq_ℤ_refl : (a : ℤ) → eq_ℤ a a ≡ true
eq_ℤ_refl (pos n) = ground arith
eq_ℤ_refl (negsuc n) = ground arith

-- The account of a user who has logged in.
abbrev pub opened : Row → Bytes → ℤ → ℤ → Row
opened r ip p q = record r { ip = ip; public_port = p; private_port = q; online_status = pos 1 }

opened-connected : (r : Row) (ip : Bytes) (p q : ℤ) → connected_from ip p (opened r ip p q) ≡ true
opened-connected r ip p q = rw (bytes_eq_refl ip, eq_ℤ_refl p)

offline-connected :
    (r : Row) (ip : Bytes) (p : ℤ) → is_online r ≡ false → connected_from ip p r ≡ false
offline-connected r ip p e = ground arith

module _ {Table : Type 0} {st : Storage Table} (law : IsStorage st) where
  user_login_ok :
      (t : Table) (u ip : Bytes) (p q fd : ℤ) (r : Row)
      → IsValid law t
      → bank law t u ≡ some r
      → is_online r ≡ false
      → user_login st t u ip p q fd
        ≡ (st.update (logged_in (law.load r) ip p q fd) t, login_success)
  user_login_ok t u ip p q fd r v e off = user_login_lem law t u ip p q fd r v e ∙ rw off

  bank-logged_in :
      (t : Table) (u ip : Bytes) (p q fd : ℤ) (r : Row) (w : Bytes)
      → IsValid law t
      → bank law t u ≡ some r
      → bank law (st.update (logged_in (law.load r) ip p q fd) t) w
        ≡ assign (bank law t) u (opened r ip p q) w
  bank-logged_in t u ip p q fd r w v e =
      bank-update_named law (logged_in (law.load r) ip p q fd) t u r _ w v e
        (load-username law t u r e) (logged_in-columns law r ip p q fd)

  connected_only :
      (t : Table) (u ip : Bytes) (p q fd : ℤ) (r : Row)
      → IsValid law t
      → bank law t u ≡ some r
      → connected law t ip p ≡ []
      → connected law (st.update (logged_in (law.load r) ip p q fd) t) ip p ≡ opened r ip p q ∷ []
  connected_only t u ip p q fd r v e free =
      let c = logged_in (law.load r) ip p q fd in
      let k = logged_in-columns law r ip p q fd in
      ap (keep (connected_from ip p)) (law.update_rows c t v.synced)
      ∙ keep-overwrite_only (connected_from ip p) c (law.rows t) r v.unique
          (ap (bank law t) (load-username law t u r e) ∙ e) free
          (ap (connected_from ip p) k ∙ opened-connected r ip p q)
      ∙ ap (λ x. x ∷ []) k

  -- Where the table fits the mapping and has no name twice: a user who is offline logs in from a
  -- connection that nobody else uses and logs out again. Both calls succeed, and the account is
  -- offline with the same balance as before; no other account has changed.
  pub logout-login :
      (t : Table) (u ip : Bytes) (p q fd : ℤ) (r : Row)
      → IsValid law t
      → bank law t u ≡ some r
      → is_online r ≡ false
      → connected law t ip p ≡ []
      → let (t', s) = user_login st t u ip p q fd in
        let (t'', s') = user_logout st t' ip p in
        (s ≡ login_success)
        × (s' ≡ logout_success)
        × ((w : Bytes) → bank law t'' w ≡ assign (bank law t) u (closed r) w)
  logout-login t u ip p q fd r v e off free =
      let c = logged_in (law.load r) ip p q fd in
      let out =
        user_logout-closes law (st.update c t) ip p (opened r ip p q) (update-IsValid law c t v)
          (connected_only t u ip p q fd r v e free) in
      rw (user_login_ok t u ip p q fd r v e off) (
        refl,
        out.0,
        λ w.
            out.1 w
            ∙ ap (λ n. assign (bank law (st.update c t)) n (closed r) w)
                (find-username u (law.rows t) r e)
            ∙ ap (λ o. if bytes_eq u w then some (closed r) else o)
                (bank-logged_in t u ip p q fd r w v e)
            ∙ assign_over (bank law t) u (opened r ip p q) (closed r) w,
      )

  connected_more :
      (t : Table) (u ip : Bytes) (p q fd : ℤ) (r : Row)
      → IsValid law t
      → bank law t u ≡ some r
      → is_online r ≡ false
      → length (connected law (st.update (logged_in (law.load r) ip p q fd) t) ip p)
        ≡ length (connected law t ip p) + 1
  connected_more t u ip p q fd r v e off =
      let c = logged_in (law.load r) ip p q fd in
      ap (λ rs. length (keep (connected_from ip p) rs)) (law.update_rows c t v.synced)
      ∙ length-keep-overwrite (connected_from ip p) c (law.rows t) r v.unique
          (ap (bank law t) (load-username law t u r e) ∙ e) (offline-connected r ip p off)
          (ap (connected_from ip p) (logged_in-columns law r ip p q fd) ∙ opened-connected r ip p q)

  -- Where the table fits the mapping and has no name twice: the second of two users, both offline,
  -- who log in over one connection locks both in. The logout fails and changes nothing.
  pub user_logout-twice :
      (t : Table) (u w ip : Bytes) (p q q' fd : ℤ) (r s : Row)
      → IsValid law t
      → bytes_eq u w ≡ false
      → bank law t u ≡ some r
      → bank law t w ≡ some s
      → is_online r ≡ false
      → is_online s ≡ false
      → let t' = (user_login st (user_login st t u ip p q fd).0 w ip p q' fd).0 in
        user_logout st t' ip p ≡ (t', logout_fail)
  user_logout-twice t u w ip p q q' fd r s v ne e f off off' =
      let c = logged_in (law.load r) ip p q fd in
      let first = update-IsValid law c t v in
      let found : bank law (st.update c t) w ≡ some s =
        bank-logged_in t u ip p q fd r w v e ∙ rw ne f in
      rw
        (
          user_login_ok t u ip p q fd r v e off,
          user_login_ok (st.update c t) w ip p q' fd s first found off',
        )
        (user_logout-stuck law _ ip p (update-IsValid law _ (st.update c t) first) (
          omega (
            arith,
            connected_more t u ip p q fd r v e off,
            connected_more (st.update c t) w ip p q' fd s first found off',
          )))
