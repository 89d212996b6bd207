-- ===== src/Database/Sessions.antt =====
-- Logging out: `user_logout` finds the user by the address and port of the connection.
use secure_person2person_p2p.Base.{
  ◌≡◌, refl, ap, ◌⊎◌, inl, inr, Bool, List, [], ◌∷◌, some, keep, Bytes, bytes_eq_refl, bytes_eq_iff,
  ℤ, pos, arith, length, ◌≤◌,
}
use secure_person2person_p2p.Database.Storage.{Row, Storage, IsStorage}
use secure_person2person_p2p.Database.Operations.{
  user_logout, logged_out, connected_from, logout_success, logout_fail, minus_one,
}
use secure_person2person_p2p.Database.Rows.{find, IsUnique}
use secure_person2person_p2p.Database.Spec.{IsValid, bank, assign}
use secure_person2person_p2p.Database.Tables.{sync_lem, bank-update_named}

-- An account whose user has logged out.
abbrev pub closed : Row → Row
closed r = record r {
  ip = [];
  public_port = minus_one;
  private_port = minus_one;
  online_status = pos 0;
}

-- A row that a query keeps is the row of its name.
pub find_kept :
    (q : Row → Bool) (rs : List Row) (r : Row) (rest : List Row)
    → IsUnique rs
    → keep q rs ≡ r ∷ rest
    → find r.username rs ≡ some r
find_kept q [] r rest h e = cc
find_kept q (x ∷ rs) r rest h e =
    ground (
      arith,
      bytes_eq_refl r.username,
      bytes_eq_iff x.username r.username,
      find_kept q rs r rest h.1,
    )

-- A list has no element, one, or more.
pub one-cases {ℓ} :
    {A : Type ℓ} (xs : List A)
    → (xs ≡ [])
      ⊎ ((a : A) × (xs ≡ a ∷ []))
      ⊎ ((a : A) × (b : A) × (rest : List A) × (xs ≡ a ∷ (b ∷ rest)))
one-cases [] = inl refl
one-cases (a ∷ []) = inr (inl (a, refl))
one-cases (a ∷ (b ∷ rest)) = inr (inr (a, b, rest, refl))

module _ {Table : Type 0} {st : Storage Table} (law : IsStorage st) where
  -- The rows that are online from an address and port.
  abbrev pub connected : Table → Bytes → ℤ → List Row
  connected t ip port = keep (connected_from ip port) (law.rows t)

  pub user_logout_none :
      (t : Table) (ip : Bytes) (port : ℤ)
      → IsValid law t
      → connected t ip port ≡ []
      → user_logout st t ip port ≡ (t, logout_fail)
  unfolding user_logout
  user_logout_none t ip port v e =
      rw (sync_lem law t v, law.get_all_rows _ t v.synced, e, user_logout, sync_lem law t v)

  pub user_logout_one :
      (t : Table) (ip : Bytes) (port : ℤ) (r : Row)
      → IsValid law t
      → connected t ip port ≡ r ∷ []
      → user_logout st t ip port ≡ (st.update (logged_out (law.load r)) t, logout_success)
  unfolding user_logout
  user_logout_one t ip port r v e =
      rw (sync_lem law t v, law.get_all_rows _ t v.synced, e, user_logout, sync_lem law t v)

  pub user_logout_many :
      (t : Table) (ip : Bytes) (port : ℤ) (r s : Row) (rest : List Row)
      → IsValid law t
      → connected t ip port ≡ r ∷ (s ∷ rest)
      → user_logout st t ip port ≡ (t, logout_fail)
  unfolding user_logout
  user_logout_many t ip port r s rest v e =
      rw (sync_lem law t v, law.get_all_rows _ t v.synced, e, user_logout, sync_lem law t v)

  -- Where the table fits the mapping and has no name twice, and exactly one user is online from an
  -- address and port: the logout succeeds, the account loses its address and ports, goes offline and
  -- keeps its balance, and no other account changes.
  pub user_logout-closes :
      (t : Table) (ip : Bytes) (port : ℤ) (r : Row)
      → IsValid law t
      → connected t ip port ≡ r ∷ []
      → let (t', s) = user_logout st t ip port in
        (s ≡ logout_success)
        × ((w : Bytes) → bank law t' w ≡ assign (bank law t) r.username (closed r) w)
  user_logout-closes t ip port r v e = rw (user_logout_one t ip port r v e) (
    refl,
    λ w.
        bank-update_named law (logged_out (law.load r)) t r.username r (closed r) w v
          (find_kept _ (law.rows t) r [] v.unique e)
          (ap (λ (x : Row). x.username) (law.columns-load r)) (ap closed (law.columns-load r)),
  )

  -- Where two users are online from one connection, neither can log out: the call fails and leaves
  -- the table as it is, however often it is made.
  pub user_logout-stuck :
      (t : Table) (ip : Bytes) (port : ℤ)
      → IsValid law t
      → 2 ≤ length (connected t ip port)
      → user_logout st t ip port ≡ (t, logout_fail)
  user_logout-stuck t ip port v h = elim (one-cases (connected t ip port)) [
    | inl e ↦ absurd (omega (arith, ap (length {0}) e))
    | inr (inl (r, e)) ↦ absurd (omega (arith, ap (length {0}) e))
    | inr (inr (r, s, rest, e)) ↦ user_logout_many t ip port r s rest v e
  ]
