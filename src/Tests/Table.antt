-- ===== src/Tests/Table.antt =====
-- A storage that keeps its rows in a list: the assumptions on the storage can be met.
use secure_person2person_p2p.Base.{
  ◌≡◌, refl, true, false, List, [], ◌∷◌, ◌++◌, map, if◌then◌else◌, keep, All, bytes_eq, negsuc,
  arith,
}
use secure_person2person_p2p.Database.Storage.{Client, Row, Storage, IsStorage, columns, overwrite}

abbrev pub Table : Type 0
Table = List Row

abbrev pub load : Row → Client
load r = record {
  username = r.username;
  ip = r.ip;
  public_port = r.public_port;
  private_port = r.private_port;
  online_status = r.online_status;
  balance = r.balance;
  fd = negsuc 0;
}

-- The rows without the one of a key.
abbrev pub without : Client → Table → Table
without c [] = []
without c (r ∷ rs) = if bytes_eq r.username c.username then without c rs else r ∷ without c rs

abbrev pub list_storage : Storage Table
list_storage = record {
  sync_schema = λ t. t;
  get_all = λ p t. map load (keep p t);
  replace = λ c t. without c t ++ columns c ∷ [];
  update = λ c t. map (overwrite c) t;
  remove_all = λ t. [];
}

without_absent :
    (c : Client) (t : Table) → All (λ r. bytes_eq r.username c.username ≡ false) t → without c t ≡ t
without_absent c [] h = refl
without_absent c (r ∷ rs) h = ground (arith, without_absent c rs h.1)

pub replace_rows :
    (c : Client) (t : Table)
    → All (λ r. bytes_eq r.username c.username ≡ false) t
    → without c t ++ columns c ∷ [] ≡ t ++ columns c ∷ []
replace_rows c t h = rw (without_absent c t h)

abbrev pub list_storage_laws : IsStorage list_storage
list_storage_laws = record {
  is_synced = λ t. true;
  rows = λ t. t;
  load = load;
  columns-load = λ r. refl;
  synced = λ t. refl;
  sync_idle = λ t e. refl;
  get_all_rows = λ p t e. refl;
  replace_rows = λ c t e. replace_rows c t;
  replace_synced = λ c t e. refl;
  update_rows = λ c t e. refl;
  update_synced = λ c t e. refl;
  remove_all_rows = λ t e. refl;
  remove_all_synced = λ t e. refl;
}
