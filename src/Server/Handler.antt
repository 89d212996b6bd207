-- ===== src/Server/Handler.antt =====
-- `process_request` of src/server.cpp: one connection, message by message. What is printed is left
-- out.
use secure_person2person_p2p.Base.{
  ℕ, true, ◌||◌, List, [], ◌∷◌, ◌++◌, some, if◌then◌else◌, ◌==◌, length, Bytes, bytes_eq, codes,
  c_str, ℤ, pos, eq_ℤ,
}
use secure_person2person_p2p.Text.Number.{stoi, to_string}
use secure_person2person_p2p.Database.Storage.{Client, Storage}
use secure_person2person_p2p.Database.Amount.{Double}
use secure_person2person_p2p.Database.Operations.{
  user_register, user_login, user_logout, user_transaction, user_info, list as list_of, user_num,
  user_list_info, register_ok, login_auth_fail, login_exist, login_success, transfer_ok,
  transfer_fail, transfer_sender_bankrupt, transfer_self_fail, query_error, minus_one,
}
use secure_person2person_p2p.Util.Rsa.{OpenSsl}
use secure_person2person_p2p.Util.Transport.{Sent, Received, private, send_p3, recv_p3}
use secure_person2person_p2p.Server.Commands.{
  CmdType, register, login, transaction, exit, err, parse_command, first, second, third,
}
use secure_person2person_p2p.Server.State.{
  sends, closes, M, ◌>>=◌, ◌>>◌, pure, query, or_undefined, or_throw, emit, gets, set_client_fds,
  stop, go_wrong, arrive, leave, end_variables, scoped, erase_client, find_client,
}

-- The variables of the thread that stay as they are: the connection and its peer.
pub record Peer : Type 0 where
  pub connection : ℤ
  pub clientip : Bytes
  pub clientport : ℤ

-- What one `recv` did: its result, the bytes that it wrote, and what the buffer held before.
pub record Receipt : Type 0 where
  pub rcv_byte : ℤ
  pub bytes : Bytes
  pub stale : Bytes

-- How the loop goes on: with the name that the thread holds, or not.
pub data Next : Type 0 where
  again : Bytes → Next
  leaves : Next

abbrev pub register_response : ℤ → Bytes
register_response status =
    to_string status
    ++ (codes " " ++ (if eq_ℤ status register_ok then codes "OK\n" else codes "FAIL\n"))

-- The balance, the number of users who are online, and their list.
abbrev pub info_response : Client → ℕ → Bytes → Bytes
info_response user online_num users =
    to_string user.balance ++ (codes "\n" ++ (to_string (pos online_num) ++ (codes "\n" ++ users)))

abbrev pub transaction_response : ℤ → Bytes
transaction_response status =
    if eq_ℤ status transfer_ok
    then codes "transfer OK\n"
    else if eq_ℤ status transfer_fail
    then codes "transfer FAIL\n"
    else if eq_ℤ status transfer_sender_bankrupt
    then codes "transfer FAIL due to bankruptcy\n"
    else if eq_ℤ status transfer_self_fail
    then codes "transfer FAIL; can't transfer to yourself\n"
    else []

module _ {Table D Key : Type 0} (st : Storage Table) (num : Double D) (ssl : OpenSsl Key)
    (private_key : Bytes) where
  -- `send_P3` under the server's private key.
  unfoldable pub reply : ℤ → Bytes → M Table (Unit {0})
  reply fd response = elim (send_p3 ssl (c_str response) private_key private) [
    | Sent.sent frame ↦ emit (sends fd frame)
    | Sent.exits ↦ stop
    | Sent.crashes ↦ go_wrong
  ]

  unfoldable pub serve_register : Peer → List Bytes → M Table (Unit {0})
  unfolding reply
  serve_register peer args = do
    status ← query (λ t. user_register st t (second args) peer.clientip)
    reply peer.connection (register_response status)

  -- The answer to a login and to a request of the list.
  unfoldable pub system_info : Bytes → M Table Bytes
  system_info username = do
    user ← or_undefined (← query (λ t. user_info st t username))
    online_num ← query (λ t. user_num st t true)
    users ← query (λ t. user_list_info st t)
    pure (info_response user online_num users)

  -- What a successful login leaves: the thread's name and an entry of `client_fds`.
  unfoldable pub welcome : Peer → Bytes → M Table Bytes
  unfolding reply system_info
  welcome peer username = do
    fds ← gets (λ w. w.client_fds)
    set_client_fds (fds ++ (username, some peer.connection) ∷ [])
    response ← system_info username
    query (λ t. user_num st t true)
    reply peer.connection response
    pure username

  -- The answer to a login, by its status.
  unfoldable pub answer_login : Peer → Bytes → Bytes → ℤ → M Table Bytes
  unfolding reply welcome
  answer_login peer username name status =
      if eq_ℤ status login_auth_fail
      then reply peer.connection (to_string status ++ codes " AUTH_FAIL\n") >> pure username
      else if eq_ℤ status login_exist
      then reply peer.connection (to_string login_exist ++ codes " DUPLICATE_LOGIN\n")
        >> pure username
      else if eq_ℤ status login_success
      then welcome peer name
      else reply peer.connection [] >> pure username

  unfoldable pub serve_login : Peer → Bytes → List Bytes → M Table Bytes
  unfolding answer_login
  serve_login peer username args = do
    port ← or_throw (stoi (second args))
    status ←
        query (λ t. user_login st t (first args) peer.clientip peer.clientport port peer.connection)
    answer_login peer username (first args) status

  -- The answer to a request of the list, by the users who are online.
  unfoldable pub answer_list : Peer → Bytes → List Client → M Table (Unit {0})
  unfolding reply system_info
  answer_list peer username online_users =
      if length online_users == 0 || bytes_eq username []
      then reply peer.connection (codes "Please login first\n")
      else system_info username >>= reply peer.connection

  unfoldable pub serve_list : Peer → Bytes → M Table (Unit {0})
  unfolding answer_list
  serve_list peer username = do
    online_users ← query (λ t. list_of st t true)
    answer_list peer username online_users

  -- The answer goes to the connection of the sender that the message names.
  unfoldable pub serve_transaction : List Bytes → M Table (Unit {0})
  unfolding reply
  serve_transaction args = do
    pay ← or_throw (num.stod (second args))
    status ← query (λ t. user_transaction st num t (first args) (third args) pay)
    sender ← or_undefined (← query (λ t. user_info st t (first args)))
    fds ← gets (λ w. w.client_fds)
    sender_fd ← or_undefined (find_client sender.username fds)
    reply sender_fd (transaction_response status)

  -- The user of the connection is logged out, and the entry of the thread's name is erased.
  unfoldable pub sign_off : Peer → Bytes → M Table (Unit {0})
  sign_off peer username = do
    query (λ t. user_num st t true)
    fds ← gets (λ w. w.client_fds)
    set_client_fds (erase_client username fds)

  unfoldable pub serve_exit : Peer → Bytes → M Table (Unit {0})
  unfolding reply sign_off
  serve_exit peer username = do
    query (λ t. user_logout st t peer.clientip peer.clientport)
    reply peer.connection (codes "Bye\n")
    sign_off peer username

  unfoldable pub dispatch : Peer → Bytes → CmdType → List Bytes → M Table Next
  unfolding serve_register serve_login serve_list serve_transaction serve_exit reply
  dispatch peer username register args = do serve_register peer args; pure (again username)
  dispatch peer username login args = do name ← serve_login peer username args; pure (again name)
  dispatch peer username CmdType.list args = do serve_list peer username; pure (again username)
  dispatch peer username transaction args = do serve_transaction args; pure (again username)
  dispatch peer username exit args = do serve_exit peer username; pure leaves
  dispatch peer username err args = do
    reply peer.connection (to_string query_error)
    pure (again username)

  -- A round of the loop, once a message was received.
  unfoldable pub handle : Peer → Bytes → ℤ → Bytes → M Table Next
  unfolding dispatch sign_off
  handle peer username tmp_byte_read raw =
      if eq_ℤ tmp_byte_read minus_one || bytes_eq raw []
      then (do
        query (λ t. user_logout st t peer.clientip peer.clientport)
        sign_off peer username
        pure leaves)
      else (let (cmd_type, processed_cmd) = parse_command raw in
          dispatch peer username cmd_type processed_cmd)

  unfoldable pub receive : Peer → Bytes → Receipt → M Table Next
  unfolding handle
  receive peer username r = elim (recv_p3 ssl r.rcv_byte r.bytes r.stale private_key private) [
    | Received.received tmp_byte_read raw ↦ handle peer username tmp_byte_read raw
    | Received.exits ↦ stop
    | Received.crashes ↦ go_wrong
  ]

  -- The end of the thread.
  unfoldable pub drop_connection : Peer → M Table (Unit {0})
  drop_connection peer = do leave; emit (closes peer.connection); end_variables peer.connection

  -- The loop: a round for each receipt, until a round leaves it or the server stops. With no receipt
  -- left the thread waits in `recv`.
  unfoldable pub serve : Peer → Bytes → List Receipt → M Table Next
  unfolding receive drop_connection
  serve peer username [] = do
    stopped ← gets (λ w. eq_ℤ peer.connection (pos 0) || w.termination_flag)
    if stopped then drop_connection peer >> pure leaves else pure (again username)
  serve peer username (r ∷ rs) = do
    stopped ← gets (λ w. eq_ℤ peer.connection (pos 0) || w.termination_flag)
    if stopped
        then drop_connection peer >> pure leaves
        else (receive peer username r >>= λ next. elim next [
          | again name ↦ serve peer name rs
          | leaves ↦ drop_connection peer >> pure leaves
        ])

  -- `process_request` for a connection, with the server's public key sent first.
  unfoldable pub process_request : Bytes → Bytes → Peer → List Receipt → M Table Next
  unfolding serve scoped
  process_request public_key request peer rs =
      if bytes_eq request (codes "init")
      then (do
        arrive
        emit (sends peer.connection public_key)
        scoped peer.connection (serve peer [] rs))
      else pure leaves
