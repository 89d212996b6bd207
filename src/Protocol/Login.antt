-- ===== src/Protocol/Login.antt =====
-- A login, from what is typed to what the client knows.
pub mod Round
pub mod Refused
use secure_person2person_p2p.Base.{
  ℕ, ◌≤◌, ◌<◌, ◌^◌, ◌≡◌, ◌∙◌, true, false, ◌∷◌, ◌++◌, map, none, some, All, Bytes, bytes_eq,
  bytes_eq_refl, codes, length, ℤ, pos, InInt, int_max, arith,
}
use secure_person2person_p2p.Text.Number.{to_string}
use secure_person2person_p2p.Text.Split.Tokens.{IsToken}
use secure_person2person_p2p.Database.Storage.{Row, Storage, IsStorage}
use secure_person2person_p2p.Database.Amount.{Double}
use secure_person2person_p2p.Database.Operations.{logged_in, is_online}
use secure_person2person_p2p.Database.Spec.{IsValid, bank, assign}
use secure_person2person_p2p.Database.Tables.{update-IsValid, bank-update_named, load-username}
use secure_person2person_p2p.Database.Refinement.{user_login_lem, logged_in-columns}
use secure_person2person_p2p.Util.Rsa.{OpenSsl, IsPair, max_message}
use secure_person2person_p2p.Process.{done}
use secure_person2person_p2p.Process.Console.{Console}
use secure_person2person_p2p.Process.Ports.{Probe}
use secure_person2person_p2p.Server.State.{World}
use secure_person2person_p2p.Server.Handler.{Peer, again, receive}
use secure_person2person_p2p.Server.Lists.{greeting, parse_list_info-greeting, online_users}
use secure_person2person_p2p.Client.Peers.{parse_list_info}
use secure_person2person_p2p.Client.Lists.{IsListed, peer, response-Lacks}
use secure_person2person_p2p.Client.Requests.{login_message}
use secure_person2person_p2p.Client.Login.{yes_or_no, Trial, login_server}
use secure_person2person_p2p.Client.Login.Request.{IsWord, login_server-other}
use secure_person2person_p2p.Protocol.Wire.{
  Wire, IsWhole, IsMessage, receipt, told, receive-message, reply-message, exchange-message,
}
use secure_person2person_p2p.Protocol.Login.Round.{
  entered, login_message-IsMessage, handle-login_message,
}

-- The account of a user who is online under the port.
abbrev pub online_row : Row → Peer → ℤ → Row
online_row r peer p = record r {
  ip = peer.clientip;
  public_port = peer.clientport;
  private_port = p;
  online_status = pos 1;
}

module _ {Table : Type 0} {st : Storage Table} (law : IsStorage st) where
  -- The table after the login of the user whose row is `r`.
  abbrev pub entered_table : Table → Row → Peer → ℤ → Table
  entered_table t r who p =
      st.update (logged_in (law.load r) who.clientip who.clientport p who.connection) t

  entered_table-bank :
      (t : Table) (user : Bytes) (r : Row) (who : Peer) (p : ℤ) (v : Bytes)
      → IsValid law t
      → bank law t user ≡ some r
      → bank law (entered_table t r who p) v ≡ assign (bank law t) user (online_row r who p) v
  entered_table-bank t user r who p v h e =
      bank-update_named law (logged_in (law.load r) who.clientip who.clientport p who.connection) t
        user r _ v h e (load-username law t user r e)
        (logged_in-columns law r who.clientip who.clientport p who.connection)

module _ {Table D Key : Type 0} {st : Storage Table} (law : IsStorage st) (num : Double D)
    {ssl : OpenSsl Key} {public_key private_key : Bytes}
    (pair : IsPair ssl public_key private_key) where
  -- For the server's pair of 2048-bit keys, a table that fits the mapping and has no name twice, and
  -- holds an account of the user, who is not online; after `n`, a name of at most 19 characters, without
  -- white space, `#` and NUL and other than `REGISTER`, and a port from 1 to 65535 of at most five
  -- characters that the client can bind; where the balance and the number of users online fit an
  -- `int`, what is listed of them is not empty and holds no `#`, no newline and no NUL, and the list
  -- fits a block of 245 bytes; and where of each frame at least 256 bytes arrive, in a buffer with room
  -- for them: the client asks to log in under that name and port; the thread of its connection
  -- marks that account alone as online, with its address and port, enters the connection in its list,
  -- goes on under the name, and sends one frame; and in that frame the client reads the balance and
  -- who is online, itself among them.
  pub login_server-served :
      (name : Bytes) (login_port : ℤ) (probe : Probe) (trial : Trial) (noise user rest : Bytes)
      (p : ℕ) (console : Console) (who : Peer) (u : Bytes) (r : Row) (w : World Table)
      (request answer : Wire)
      → All (λ x. yes_or_no x ≡ none) noise
      → IsWord user
      → IsToken b'#' user
      → length user < 20
      → bytes_eq user (codes "REGISTER") ≡ false
      → 0 < p
      → p < 2 ^ 16
      → length (to_string (pos p)) < 6
      → trial.socket_ok ≡ true
      → trial.binds p ≡ true
      → console.input
        ≡ noise ++ (b'n' ∷ (b'\n' ∷ (user ++ (b'\n' ∷ (to_string (pos p) ++ (b'\n' ∷ rest))))))
      → IsValid law w.db
      → bank law w.db user ≡ some r
      → is_online r ≡ false
      → InInt r.balance
      → length (online_users law (entered_table law w.db r who (pos p))) ≤ int_max
      → All IsListed (online_users law (entered_table law w.db r who (pos p)))
      → length (greeting law (online_row r who (pos p)) (entered_table law w.db r who (pos p)))
        ≤ max_message
      → IsWhole request
      → IsWhole answer
      → let t = entered_table law w.db r who (pos p) in
        let after = online_row r who (pos p) in
        let us = online_users law t in
        (c : Bytes) × (c' : Bytes) × ((login_server ssl public_key name login_port probe trial
            (receipt answer c')
            console).0
          ≡ done (record {
            name = user;
            login_port = pos p;
            sent_frame = some c;
            rcv_msg = greeting law after t;
          }))
        × (receive st num ssl private_key who u (receipt request c) w
            ≡ (done (again user), told (entered w t user who.connection) who.connection c'))
        × ((v : Bytes) → bank law t v ≡ assign (bank law w.db) user after v)
        × (parse_list_info (greeting law after t)
            ≡ done (record {
              acct_balance = r.balance;
              online_num = pos (length us);
              peer_list = map peer us;
            }))
  login_server-served name login_port probe trial noise user rest p console who u r w request answer
        quiet word token short other low high five sock free typed v e off i few listed fits whole
        whole' =
      let t = entered_table law w.db r who (pos p) in
      let after = online_row r who (pos p) in
      let us = online_users law t in
      let v' : IsValid law t = update-IsValid law _ w.db v in
      let agrees : (x : Bytes) → bank law t x ≡ assign (bank law w.db) user after x =
        λ x. entered_table-bank law w.db user r who (pos p) x v e in
      let found : bank law t user ≡ some after = agrees user ∙ rw bytes_eq_refl in
      let told_whole : IsMessage (greeting law after t) = record {
        whole = response-Lacks (law.load after) us listed;
        short = fits;
      } in
      let (c, sent_c, arrives) =
        receive-message st num pair (login_message user (pos p)) request
          (login_message-IsMessage user p token short five) whole in
      let (c', told_lem, read) =
        reply-message st num pair (greeting law after t) answer told_whole whole' in
      (
        c,
        c',
        login_server-other ssl public_key name login_port probe trial (receipt answer c') noise user
              rest p console quiet word short low high five sock typed
            ∙ rw (
              free,
              exchange-message ssl public_key (login_message user (pos p)) _ c c' answer sent_c
                  read,
            ),
        arrives who u w
            ∙ handle-login_message law num ssl private_key who u user c' request.rcv_byte p t after
                w whole.no_error token other (omega arith)
                (user_login_lem law w.db user who.clientip who.clientport (pos p) who.connection r v
                    e
                  ∙ rw off)
                v' found told_lem,
        agrees,
        parse_list_info-greeting law t after i few listed,
      )
