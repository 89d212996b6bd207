-- ===== src/Protocol/Refresh.antt =====
-- A request of the list, from the client to the table and back.
use secure_person2person_p2p.Base.{
  ◌≡◌, ◌≤◌, ◌<◌, ◌==◌, ap, ◌∙◌, Bool, Bool-cases, true, false, inl, inr, List, [], ◌∷◌, map, All,
  some, keep, Bytes, bytes_eq, length, length-map, ℤ, pos, eq_ℤ, InInt, int_max, arith,
}
use secure_person2person_p2p.Database.Storage.{Row, Storage, IsStorage}
use secure_person2person_p2p.Database.Amount.{Double}
use secure_person2person_p2p.Database.Operations.{list as list_of, is_online, list_info, minus_one}
use secure_person2person_p2p.Database.Rows.{find, find-head, find-tail}
use secure_person2person_p2p.Database.Spec.{IsValid, bank}
use secure_person2person_p2p.Database.Tables.{sync_lem}
use secure_person2person_p2p.Util.Rsa.{OpenSsl, IsPair, max_message}
use secure_person2person_p2p.Process.{done}
use secure_person2person_p2p.Server.State.{World, query, bind_done, query_lem, pure_lem}
use secure_person2person_p2p.Server.Handler.{
  Peer, again, reply, system_info, answer_list, serve_list, dispatch, handle, receive,
}
use secure_person2person_p2p.Server.Lists.{
  greeting, parse_list_info-greeting, online_users, system_info_lem,
}
use secure_person2person_p2p.Client.Peers.{Known}
use secure_person2person_p2p.Client.Requests.{list_message, exchange, renew, request_list}
use secure_person2person_p2p.Client.Messages.{list-read}
use secure_person2person_p2p.Client.Lists.{IsListed, peer, response-Lacks}
use secure_person2person_p2p.Client.Refresh.{not_refused}
use secure_person2person_p2p.Protocol.Wire.{
  Wire, IsWhole, IsMessage, receipt, told, receive-message, reply-message, exchange-message,
}

list_message-IsMessage : IsMessage list_message
list_message-IsMessage = record { whole = omega arith; short = omega arith }

-- A row that is found and that a query keeps is among those it keeps.
keep-some :
    (q : Row → Bool) (u : Bytes) (rs : List Row) (r : Row)
    → find u rs ≡ some r
    → q r ≡ true
    → 0 < length (keep q rs)
keep-some q u [] r e on = cc
keep-some q u (x ∷ rs) r e on = elim (Bool-cases (q x)) [
  | inl kept ↦ rw kept (omega arith)
  | inr not_kept ↦ elim (Bool-cases (bytes_eq x.username u)) [
    | inl hit ↦ absurd (ground (arith, find-head u x rs r hit e))
    | inr miss ↦ rw not_kept (keep-some q u rs r (find-tail u x rs r miss e) on)
  ]
]

module _ {Table D Key : Type 0} {st : Storage Table} (law : IsStorage st) (num : Double D)
    (ssl : OpenSsl Key) (private_key : Bytes) where
  online_lem : (t : Table) → IsValid law t → list_of st t true ≡ (t, online_users law t)
  unfolding list_of
  online_lem t v = rw (sync_lem law t v, law.get_all_rows is_online t v.synced)

  serve_list_lem :
      (who : Peer) (u c : Bytes) (r : Row) (w : World Table)
      → bytes_eq u [] ≡ false
      → IsValid law w.db
      → bank law w.db u ≡ some r
      → is_online r ≡ true
      → ((fd : ℤ) (v : World Table)
          → reply st num ssl private_key fd (greeting law r w.db) v ≡ (done tt, told v fd c))
      → serve_list st num ssl private_key who u w ≡ (done tt, told w who.connection c)
  unfolding serve_list answer_list
  serve_list_lem who u c r w named v e on told_lem =
      let some_online : (length (online_users law w.db) == 0) ≡ false = ground (
        arith,
        length-map law.load (keep is_online (law.rows w.db)),
        keep-some is_online u (law.rows w.db) r e on,
      ) in
      bind_done (query (λ t. list_of st t true)) _ w (online_users law w.db) w
        (query_lem _ w ∙ ap (λ x. (done x.1, record w { db = x.0 })) (online_lem w.db v))
      ∙ rw (some_online, named)
          (bind_done (system_info st num ssl private_key u) _ w (greeting law r w.db) w
              (system_info_lem law num ssl private_key w u r v e)
            ∙ told_lem who.connection w)

  handle-list_message :
      (who : Peer) (u c : Bytes) (n : ℤ) (r : Row) (w : World Table)
      → eq_ℤ n minus_one ≡ false
      → bytes_eq u [] ≡ false
      → IsValid law w.db
      → bank law w.db u ≡ some r
      → is_online r ≡ true
      → ((fd : ℤ) (v : World Table)
          → reply st num ssl private_key fd (greeting law r w.db) v ≡ (done tt, told v fd c))
      → handle st num ssl private_key who u n list_message w
        ≡ (done (again u), told w who.connection c)
  unfolding handle dispatch bytes_eq
  handle-list_message who u c n r w no_error named v e on told_lem =
      rw (no_error, list-read, handle)
        (bind_done (serve_list st num ssl private_key who u) _ w tt _
            (serve_list_lem who u c r w named v e on told_lem)
          ∙ pure_lem _ _)

module _ {Table D Key : Type 0} {st : Storage Table} (law : IsStorage st) (num : Double D)
    {ssl : OpenSsl Key} {public_key private_key : Bytes}
    (pair : IsPair ssl public_key private_key) where
  -- For the server's pair of 2048-bit keys, a table that fits the mapping and has no name twice, and a
  -- thread that holds the name of a user who is online; where the balance and the number of users
  -- online fit an `int`, what is listed of them is not empty and holds no `#`, no newline and no NUL,
  -- and the list fits a block of 245 bytes; and where of each frame at least 256 bytes arrive, in a
  -- buffer with room for them: the client's request of the list arrives, and the thread sends one frame
  -- and changes nothing; and whatever the client knew, it then knows the balance in the table and
  -- exactly who is online there, each with name, address and port, in the table's order.
  pub request_list-served :
      (before : Known) (who : Peer) (u : Bytes) (r : Row) (w : World Table) (request answer : Wire)
      → bytes_eq u [] ≡ false
      → IsValid law w.db
      → bank law w.db u ≡ some r
      → is_online r ≡ true
      → InInt r.balance
      → length (online_users law w.db) ≤ int_max
      → All IsListed (online_users law w.db)
      → length (greeting law r w.db) ≤ max_message
      → IsWhole request
      → IsWhole answer
      → (c : Bytes) × (c' : Bytes) × (exchange ssl public_key list_message (receipt answer c')
          ≡ done (c, greeting law r w.db))
        × (receive st num ssl private_key who u (receipt request c) w
            ≡ (done (again u), told w who.connection c'))
        × (request_list ssl public_key before (receipt answer c')
            ≡ done (record {
              acct_balance = r.balance;
              online_num = pos (length (online_users law w.db));
              peer_list = map peer (online_users law w.db);
            }))
  unfolding request_list renew
  request_list-served before who u r w request answer named v e on i few listed fits whole whole' =
      let us = online_users law w.db in
      let told_whole : IsMessage (greeting law r w.db) = record {
        whole = response-Lacks (law.load r) us listed;
        short = fits;
      } in
      let (c, sent_c, arrives) =
        receive-message st num pair list_message request list_message-IsMessage whole in
      let (c', told_lem, read) =
        reply-message st num pair (greeting law r w.db) answer told_whole whole' in
      let exchanged = exchange-message ssl public_key list_message _ c c' answer sent_c read in
      (
        c,
        c',
        exchanged,
        arrives who u w
            ∙ handle-list_message law num ssl private_key who u c' request.rcv_byte r w
                whole.no_error named v e on told_lem,
        rw (exchanged, request_list, renew, not_refused (law.load r) (length us) (list_info us))
            (parse_list_info-greeting law w.db r i few listed),
      )
