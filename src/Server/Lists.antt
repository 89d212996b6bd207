-- ===== src/Server/Lists.antt =====
-- The answer to a request of the list, and what the client reads in it.
use secure_person2person_p2p.Base.{
  ◌≤◌, ◌≡◌, sym, ap, ◌∙◌, true, List, map, some, All, Bytes, pos, length, int_max, InInt, keep,
  subst,
}
use secure_person2person_p2p.Database.Storage.{Client, Row, Storage, IsStorage}
use secure_person2person_p2p.Database.Amount.{Double}
use secure_person2person_p2p.Database.Operations.{
  list, user_num, user_list_info, is_online, list_info,
}
use secure_person2person_p2p.Database.Spec.{IsValid, bank}
use secure_person2person_p2p.Database.Tables.{sync_lem}
use secure_person2person_p2p.Database.Refinement.{user_info_lem}
use secure_person2person_p2p.Util.Rsa.{OpenSsl}
use secure_person2person_p2p.Server.State.{World, ◌>>=◌}
use secure_person2person_p2p.Process.{done}
use secure_person2person_p2p.Server.Handler.{system_info, info_response}
use secure_person2person_p2p.Client.Peers.{parse_list_info}
use secure_person2person_p2p.Client.Lists.{IsListed, peer, parse_list_info-info_response}

module _ {Table : Type 0} {st : Storage Table} (law : IsStorage st) where
  -- The users who are online, in the order of their registration.
  abbrev pub online_users : Table → List Client
  online_users t = map law.load (keep is_online (law.rows t))

  -- The answer for the user of the row, by the table.
  abbrev pub greeting : Row → Table → Bytes
  greeting r t = let us = online_users t in info_response (law.load r) (length us) (list_info us)

  pub parse_list_info-greeting :
      (t : Table) (r : Row)
      → InInt r.balance
      → length (online_users t) ≤ int_max
      → All IsListed (online_users t)
      → parse_list_info (greeting r t)
        ≡ done (record {
          acct_balance = r.balance;
          online_num = pos (length (online_users t));
          peer_list = map peer (online_users t);
        })
  parse_list_info-greeting t r i n h =
      let us = online_users t in
      let same : (law.load r).balance ≡ r.balance =
        ap (λ (x : Row). x.balance) (law.columns-load r) in
      parse_list_info-info_response (law.load r) us (subst InInt (sym same) i) n h
      ∙ ap
          (λ b.
            done
              (record { acct_balance = b; online_num = pos (length us); peer_list = map peer us }))
          same

module _ {Table D Key : Type 0} {st : Storage Table} (law : IsStorage st) (num : Double D)
    (ssl : OpenSsl Key) (private_key : Bytes) where
  pub user_num_lem :
      (t : Table) → IsValid law t → user_num st t true ≡ (t, length (online_users law t))
  unfolding user_num list
  user_num_lem t v = rw (sync_lem law t v, law.get_all_rows is_online t v.synced)

  user_list_info_lem :
      (t : Table) → IsValid law t → user_list_info st t ≡ (t, list_info (online_users law t))
  unfolding user_list_info list
  user_list_info_lem t v = rw (sync_lem law t v, law.get_all_rows is_online t v.synced)

  pub system_info_lem :
      (w : World Table) (u : Bytes) (r : Row)
      → IsValid law w.db
      → bank law w.db u ≡ some r
      → system_info st num ssl private_key u w ≡ (
        done (
            info_response
              (law.load r)
              (length (online_users law w.db))
              (list_info (online_users law w.db))),
        w,
      )
  unfolding system_info ◌>>=◌
  system_info_lem w u r v e = rw (
    user_info_lem law w.db u v,
    e,
    system_info,
    user_num_lem w.db v,
    system_info,
    user_list_info_lem w.db v,
  )

  -- Where the table fits the mapping and has no name twice, and holds an account of the name: the
  -- server's answer changes nothing in the server, and the client reads in it the balance of the
  -- account and exactly the users who are online, each with name, address and port, if the balance
  -- and the number are `int`s and the names and addresses of these users are not empty and hold no
  -- `#`, no newline and no NUL.
  pub parse_list_info-system_info :
      (w : World Table) (u : Bytes) (r : Row)
      → IsValid law w.db
      → bank law w.db u ≡ some r
      → InInt r.balance
      → length (online_users law w.db) ≤ int_max
      → All IsListed (online_users law w.db)
      → (response : Bytes) × (system_info st num ssl private_key u w ≡ (done response, w))
        × (parse_list_info response
            ≡ done (record {
              acct_balance = r.balance;
              online_num = pos (length (online_users law w.db));
              peer_list = map peer (online_users law w.db);
            }))
  parse_list_info-system_info w u r v e i n h =
      (_, system_info_lem w u r v e, parse_list_info-greeting law w.db r i n h)
