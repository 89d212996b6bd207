-- ===== src/Database/Validity.antt =====
-- The invariant of the table, kept by every operation.
use secure_person2person_p2p.Base.{
  ◌*◌, ◌≡◌, ◌⊎◌, inl, inr, refl, ap, subst, ◌∙◌, List, [], ◌∷◌, map, none, some, All, All-append,
  Bytes, bytes_eq, ℤ, pos, ◌+ℤ◌, ◌≤ℤ◌, pos_part, neg_part, int_laws, length, length-append,
  length-map, arith, Bool-cases, Option-cases,
}
use secure_person2person_p2p.Database.Storage.{Client, Row, Storage, IsStorage, columns, overwrite}
use secure_person2person_p2p.Database.Operations.{
  user_register, user_login, user_logout, new_user, logged_in, logged_out, minus_one, is_online,
}
use secure_person2person_p2p.Database.Rows.{find, find-head, find-tail}
use secure_person2person_p2p.Database.Total.{
  total, AllNonneg, total-append, total-overwrite, find-nonneg,
}
use secure_person2person_p2p.Database.Spec.{IsValid, bank}
use secure_person2person_p2p.Database.Tables.{
  replace-IsValid, update-IsValid, load-username, rows-replace,
}
use secure_person2person_p2p.Database.Refinement.{
  user_register_new, user_register_taken, user_login_lem, user_login_unknown,
}
use secure_person2person_p2p.Database.Sessions.{
  one-cases, connected, user_logout_none, user_logout_one, user_logout_many, find_kept,
}

-- A user is online, or is offline and has no address and no ports.
abbrev pub IsSession : Row → Type 0
IsSession r =
    (r.online_status ≡ pos 1)
    ⊎ ((r.online_status ≡ pos 0)
        × (r.ip ≡ [])
        × (r.public_port ≡ minus_one)
        × (r.private_port ≡ minus_one))

-- The table fits the mapping, no name stands twice, no balance is negative, the offline users have no
-- address, and the balances sum up to what the accounts were opened with.
pub record IsSound {Table : Type 0} {st : Storage Table} (law : IsStorage st) (t : Table)
    : Type 0 where
  pub valid : IsValid law t
  pub nonneg : AllNonneg (law.rows t)
  pub sessions : All IsSession (law.rows t)
  pub funded : total (law.rows t) ≡ pos (10000 * length (law.rows t))

pub All-overwrite {κ} :
    (P : Row → Type κ) (c : Client) (rs : List Row)
    → All P rs
    → P (columns c)
    → All P (map (overwrite c) rs)
All-overwrite P c [] h p = tt
All-overwrite P c (x ∷ rs) h p = elim (Bool-cases (bytes_eq x.username c.username)) [
  | inl e ↦ rw e (p, All-overwrite P c rs h.1 p)
  | inr e ↦ rw e (h.0, All-overwrite P c rs h.1 p)
]

pub All-find {κ} :
    (P : Row → Type κ) (u : Bytes) (rs : List Row) (r : Row) → All P rs → find u rs ≡ some r → P r
All-find P u [] r h e = cc
All-find P u (x ∷ rs) r h e = elim (Bool-cases (bytes_eq x.username u)) [
  | inl hit ↦ subst P (find-head u x rs r hit e) h.0
  | inr miss ↦ All-find P u rs r h.1 (find-tail u x rs r miss e)
]

module _ {Table : Type 0} {st : Storage Table} (law : IsStorage st) where
  -- An update changes the sum by what it changes in its account.
  pub total-update :
      (c : Client) (t : Table) (r : Row)
      → IsValid law t
      → bank law t c.username ≡ some r
      → total (law.rows (st.update c t)) +ℤ r.balance ≡ total (law.rows t) +ℤ c.balance
  total-update c t r v e =
      ap (λ rs. total rs +ℤ r.balance) (law.update_rows c t v.synced)
      ∙ total-overwrite c (law.rows t) r v.unique e

  pub length-update :
      (c : Client) (t : Table)
      → IsValid law t
      → length (law.rows (st.update c t)) ≡ length (law.rows t)
  length-update c t v =
      ap (length {0}) (law.update_rows c t v.synced) ∙ length-map (overwrite c) (law.rows t)

  replace-IsSound :
      (t : Table) (u : Bytes)
      → IsSound law t
      → bank law t u ≡ none
      → IsSound law (st.replace (new_user u) t)
  replace-IsSound t u v e =
      let k = rows-replace law (new_user u) t v.valid e in
      let new = columns (new_user u) in
      record {
        valid = replace-IsValid law (new_user u) t v.valid e;
        nonneg =
            rw k
              (All-append (λ r. pos 0 ≤ℤ r.balance) (law.rows t) (new ∷ []) v.nonneg (omega arith));
        sessions = rw k (
            All-append IsSession (law.rows t) (new ∷ []) v.sessions
              (inr (refl, refl, refl, refl), tt));
        funded =
            rw (k, total-append (law.rows t) new, v.funded)
              (omega (int_laws, length-append (law.rows t) (new ∷ [])));
      }

  -- An update that leaves the balance alone.
  update-IsSound :
      (c : Client) (t : Table) (r : Row)
      → IsSound law t
      → bank law t c.username ≡ some r
      → c.balance ≡ r.balance
      → IsSession (columns c)
      → IsSound law (st.update c t)
  update-IsSound c t r v e b s =
      let k = law.update_rows c t v.valid.synced in
      record {
        valid = update-IsValid law c t v.valid;
        nonneg = rw k (
            All-overwrite (λ x. pos 0 ≤ℤ x.balance) c (law.rows t) v.nonneg
              (rw b (find-nonneg c.username (law.rows t) r v.nonneg e)));
        sessions = rw k (All-overwrite IsSession c (law.rows t) v.sessions s);
        funded =
            rw (k, length-map (overwrite c) (law.rows t))
              (cancel (total-overwrite c (law.rows t) r v.valid.unique e) ∙ v.funded);
      }
    where
      cancel :
          total (map (overwrite c) (law.rows t)) +ℤ r.balance ≡ total (law.rows t) +ℤ c.balance
          → total (map (overwrite c) (law.rows t)) ≡ total (law.rows t)
      cancel p = omega (int_laws, ap pos_part p, ap neg_part p, ap pos_part b, ap neg_part b)

  pub user_register-IsSound :
      (t : Table) (u ip : Bytes) → IsSound law t → IsSound law (user_register st t u ip).0
  user_register-IsSound t u ip v = elim (Option-cases (bank law t u)) [
    | inl e ↦ rw (user_register_new law t u ip v.valid e) (replace-IsSound t u v e)
    | inr (r, e) ↦ rw (user_register_taken law t u ip r v.valid e) v
  ]

  pub user_login-IsSound :
      (t : Table) (u ip : Bytes) (p q fd : ℤ)
      → IsSound law t
      → IsSound law (user_login st t u ip p q fd).0
  user_login-IsSound t u ip p q fd v = elim (Option-cases (bank law t u)) [
    | inl e ↦ rw (user_login_unknown law t u ip p q fd v.valid e) v
    | inr (r, e) ↦ elim (Bool-cases (is_online r)) [
      | inl on ↦ rw (user_login_lem law t u ip p q fd r v.valid e, on) v
      | inr off ↦
          rw (user_login_lem law t u ip p q fd r v.valid e, off)
            (update-IsSound (logged_in (law.load r) ip p q fd) t r v
              (ap (bank law t) (load-username law t u r e) ∙ e)
              (ap (λ (x : Row). x.balance) (law.columns-load r)) (inl refl))
    ]
  ]

  pub user_logout-IsSound :
      (t : Table) (ip : Bytes) (p : ℤ) → IsSound law t → IsSound law (user_logout st t ip p).0
  user_logout-IsSound t ip p v = elim (one-cases (connected law t ip p)) [
    | inl e ↦ rw (user_logout_none law t ip p v.valid e) v
    | inr (inl (r, e)) ↦
        let name = ap (λ (x : Row). x.username) (law.columns-load r) in
        rw (user_logout_one law t ip p r v.valid e) (
          update-IsSound (logged_out (law.load r)) t r v
            (ap (bank law t) name ∙ find_kept _ (law.rows t) r [] v.valid.unique e)
            (ap (λ (x : Row). x.balance) (law.columns-load r)) (inr (refl, refl, refl, refl)))
    | inr (inr (r, s, rest, e)) ↦ rw (user_logout_many law t ip p r s rest v.valid e) v
  ]
