-- ===== src/Database/Tables.antt =====
-- Tables that fit the mapping and have unique keys: what the storage's calls do to the accounts.
use secure_person2person_p2p.Base.{
  ◌≡◌, refl, ap, ◌∙◌, ◌&&◌, [], ◌∷◌, ◌++◌, map, Option, none, some, keep, Bytes, bytes_eq_iff,
  arith,
}
use secure_person2person_p2p.Database.Storage.{Client, Row, Storage, IsStorage, columns}
use secure_person2person_p2p.Database.Operations.{named, is_online}
use secure_person2person_p2p.Database.Rows.{
  find, find-username, find-All, find-append, IsUnique-append, IsUnique-overwrite, find-overwrite,
  keep-named, keep-find, to_list,
}
use secure_person2person_p2p.Database.Spec
use secure_person2person_p2p.Database.Spec.{IsValid, bank, assign}

keep-online : (o : Option Row) → keep is_online (to_list o) ≡ to_list (Spec.online o)
keep-online none = refl
keep-online (some r) = ground arith

module _ {Table : Type 0} {st : Storage Table} (law : IsStorage st) where
  pub sync_lem : (t : Table) → IsValid law t → st.sync_schema t ≡ t
  sync_lem t v = law.sync_idle t v.synced

  pub get_all-named :
      (t : Table) (u : Bytes)
      → IsValid law t
      → st.get_all (named u) t ≡ map law.load (to_list (bank law t u))
  get_all-named t u v =
      law.get_all_rows (named u) t v.synced ∙ ap (map law.load) (keep-named u (law.rows t) v.unique)

  pub get_all-online :
      (t : Table) (u : Bytes)
      → IsValid law t
      → st.get_all (λ r. named u r && is_online r) t
        ≡ map law.load (to_list (Spec.online (bank law t u)))
  get_all-online t u v =
      law.get_all_rows _ t v.synced
      ∙ ap (map law.load) (keep-find u is_online (law.rows t) v.unique ∙ keep-online (bank law t u))

  pub rows-replace :
      (c : Client) (t : Table)
      → IsValid law t
      → bank law t c.username ≡ none
      → law.rows (st.replace c t) ≡ law.rows t ++ columns c ∷ []
  rows-replace c t v e = law.replace_rows c t v.synced (find-All c.username (law.rows t) e)

  -- A row with a new name is one more account.
  pub bank-replace :
      (c : Client) (t : Table) (w : Bytes)
      → IsValid law t
      → bank law t c.username ≡ none
      → bank law (st.replace c t) w ≡ assign (bank law t) c.username (columns c) w
  bank-replace c t w v e =
      ap (find w) (rows-replace c t v e) ∙ find-append w (law.rows t) (columns c) e

  pub replace-IsValid :
      (c : Client) (t : Table)
      → IsValid law t
      → bank law t c.username ≡ none
      → IsValid law (st.replace c t)
  replace-IsValid c t v e = record {
    synced = law.replace_synced c t v.synced;
    unique = rw (rows-replace c t v e) (IsUnique-append (law.rows t) (columns c) v.unique e);
  }

  -- An update of an account assigns it.
  pub bank-update :
      (c : Client) (t : Table) (r : Row) (w : Bytes)
      → IsValid law t
      → bank law t c.username ≡ some r
      → bank law (st.update c t) w ≡ assign (bank law t) c.username (columns c) w
  bank-update c t r w v e =
      ap (find w) (law.update_rows c t v.synced)
      ∙ find-overwrite w c (law.rows t)
      ∙ ground (arith, bytes_eq_iff c.username w)

  -- The object that a query returns for a row has the row's columns, so its name too.
  pub load-username :
      (t : Table) (u : Bytes) (r : Row) → bank law t u ≡ some r → (law.load r).username ≡ u
  load-username t u r e =
      ap (λ (x : Row). x.username) (law.columns-load r) ∙ find-username u (law.rows t) r e

  -- An update by an object of a known name assigns that account.
  pub bank-update_named :
      (c : Client) (t : Table) (u : Bytes) (r new : Row) (w : Bytes)
      → IsValid law t
      → bank law t u ≡ some r
      → c.username ≡ u
      → columns c ≡ new
      → bank law (st.update c t) w ≡ assign (bank law t) u new w
  bank-update_named c t u r new w v e n k =
      bank-update c t r w v (ap (bank law t) n ∙ e)
      ∙ ap (λ x. assign (bank law t) x (columns c) w) n
      ∙ ap (λ x. assign (bank law t) u x w) k

  pub update-IsValid : (c : Client) (t : Table) → IsValid law t → IsValid law (st.update c t)
  update-IsValid c t v = record {
    synced = law.update_synced c t v.synced;
    unique = rw (law.update_rows c t v.synced) (IsUnique-overwrite c (law.rows t) v.unique);
  }
