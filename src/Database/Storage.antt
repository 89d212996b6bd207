-- ===== src/Database/Storage.antt =====
-- `struct Client`, the columns that `Database::connect` maps, and the storage that it opens.
-- The storage is sqlite_orm's, whose calls are a parameter of the model.
use secure_person2person_p2p.Base.{
  ◌≡◌, Bool, true, List, [], ◌∷◌, ◌++◌, map, if◌then◌else◌, keep, All, Bytes, bytes_eq, ℤ, false,
}

pub record Client : Type 0 where
  pub username : Bytes
  pub ip : Bytes
  pub public_port : ℤ
  pub private_port : ℤ
  pub online_status : ℤ
  pub balance : ℤ
  pub fd : ℤ

-- The columns of the table: all fields of a client but `fd`, which `connect` does not map.
pub record Row : Type 0 where
  pub username : Bytes
  pub ip : Bytes
  pub public_port : ℤ
  pub private_port : ℤ
  pub online_status : ℤ
  pub balance : ℤ

abbrev pub columns : Client → Row
columns c = record {
  username = c.username;
  ip = c.ip;
  public_port = c.public_port;
  private_port = c.private_port;
  online_status = c.online_status;
  balance = c.balance;
}

-- The calls of the storage. A `where` clause is a test on the columns.
pub record Storage (Table : Type 0) : Type 0 where
  pub sync_schema : Table → Table
  pub get_all : (Row → Bool) → Table → List Client
  pub replace : Client → Table → Table
  pub update : Client → Table → Table
  pub remove_all : Table → Table

-- What an update leaves of a row: the object's columns, if the object has the row's key.
abbrev pub overwrite : Client → Row → Row
overwrite c r = if bytes_eq r.username c.username then columns c else r

-- The documented behaviour of the storage. `rows` are the rows of the table in rowid order, in
-- which a query without an order yields them; the column that is not mapped is left as `load` says.
pub record IsStorage {Table : Type 0} (st : Storage Table) : Type 0 where
  pub is_synced : Table → Bool
  pub rows : Table → List Row
  pub load : Row → Client
  pub columns-load : (r : Row) → columns (load r) ≡ r
  -- Synchronising makes the table fit the mapping, and does nothing to one that fits.
  pub synced : (t : Table) → is_synced (st.sync_schema t) ≡ true
  pub sync_idle : (t : Table) → is_synced t ≡ true → st.sync_schema t ≡ t
  -- A query returns the rows that pass its test.
  pub get_all_rows :
      (p : Row → Bool) (t : Table)
      → is_synced t ≡ true
      → st.get_all p t ≡ map load (keep p (rows t))
  -- A row with a new key goes to the end.
  pub replace_rows :
      (c : Client) (t : Table)
      → is_synced t ≡ true
      → All (λ r. bytes_eq r.username c.username ≡ false) (rows t)
      → rows (st.replace c t) ≡ rows t ++ columns c ∷ []
  pub replace_synced :
      (c : Client) (t : Table) → is_synced t ≡ true → is_synced (st.replace c t) ≡ true
  -- An update overwrites the row that has the object's key.
  pub update_rows :
      (c : Client) (t : Table)
      → is_synced t ≡ true
      → rows (st.update c t) ≡ map (overwrite c) (rows t)
  pub update_synced :
      (c : Client) (t : Table) → is_synced t ≡ true → is_synced (st.update c t) ≡ true
  pub remove_all_rows : (t : Table) → is_synced t ≡ true → rows (st.remove_all t) ≡ []
  pub remove_all_synced : (t : Table) → is_synced t ≡ true → is_synced (st.remove_all t) ≡ true
