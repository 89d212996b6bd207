-- ===== src/Client/Choices.antt =====
-- What each choice of the menu of src/client.cpp does. What the network, the kernel and the files do
-- in a round is its `Turn`; the counts of bytes and the time are not modelled.
use secure_person2person_p2p.Base.{
  ℕ, Bool, true, List, [], ◌∷◌, ◌++◌, Option, none, some, leb, ltb, if◌then◌else◌, length, Bytes,
  codes, ℤ,
}
use secure_person2person_p2p.Text.Split.{split}
use secure_person2person_p2p.Text.Number.{to_string}
use secure_person2person_p2p.Process.{Result, done, threw, exited, undefined, waits}
use secure_person2person_p2p.Process.Console.{
  Io, pure, exit, go_wrong, print, lift, or_undefined, read_byte, ◌>>=◌, ◌>>◌,
}
use secure_person2person_p2p.Process.Ports.{Probe, htons}
use secure_person2person_p2p.Util.Rsa.{OpenSsl}
use secure_person2person_p2p.Util.Keys.{create_key_and_certificate, read_key}
use secure_person2person_p2p.Server.Handler.{Receipt}
use secure_person2person_p2p.Client.Peers.{find_peer_info}
use secure_person2person_p2p.Client.Requests.{exchange, renew, register_user, list_message}
use secure_person2person_p2p.Client.Transfers.{p2p_transaction}
use secure_person2person_p2p.Client.Login.{Trial, read_into, login_server}
use secure_person2person_p2p.Client.Session.{Session, print_sys_info, read_number, end_session}

pub record Turn : Type 0 where
  -- The answers of the server, in order.
  pub first : Receipt
  pub second : Receipt
  pub third : Receipt
  pub probe : Probe
  pub trial : Trial
  -- The socket on which the client listens to other users.
  pub socket_ok : Bool
  pub binds : ℕ → Bool
  pub listen_ok : Bool
  pub draw : ℕ → ℕ
  pub key_file : Option Bytes
  pub pubkey_file : Option Bytes
  pub peer_pubkey : Bytes
  -- What is in the memory that `p2p_transaction` gets for its message.
  pub stale_msg : Bytes

-- What is sent to the server; the `Session` is the one after the round.
abbrev pub Ended : Type 0
Ended = Session × List Bytes

abbrev pub show_message : Bytes → Io (Unit {0})
show_message msg = print (codes "\n" ++ (msg ++ codes "\n"))

module _ {Key : Type 0} (ssl : OpenSsl Key) (server_pubkey : Bytes) (verbose : Bool) where
  -- `request_list`, with the frame and the answer.
  abbrev pub refresh : Session → Receipt → Io (Session × Bytes × Bytes)
  refresh s r = do
    (frame, rcv_msg) ← lift (exchange ssl server_pubkey list_message r)
    known ← lift (renew ssl server_pubkey s.known rcv_msg)
    pure (record s { known = known }, frame, rcv_msg)

  unfoldable pub choose_register : Session → Turn → Io Ended
  unfolding register_user
  choose_register s turn = do
    print (codes "Enter username: ")
    tmp_name ← read_into 2039
    _ ← read_byte
    (frame, rcv_msg) ← lift (register_user ssl server_pubkey tmp_name turn.first)
    show_message rcv_msg
    pure (if s.client_server_open then s else record s { name = tmp_name }, frame ∷ [])

  -- Behind a login that the server has answered with more than two lines.
  unfoldable pub open_client_server : Session → List Bytes → Turn → Io Ended
  unfolding create_key_and_certificate read_key print_sys_info
  open_client_server s frames turn = do
    uid ← create_key_and_certificate turn.draw (codes "certs") (codes "client") (codes "client")
    public_key ← lift (read_key turn.pubkey_file)
    private_key ← lift (read_key turn.key_file)
    let keyed : Session = record s {
      uid = uid;
      public_key = public_key;
      private_key = private_key;
    } in
        if turn.socket_ok
        then (if turn.binds (htons s.login_port)
            then (if turn.listen_ok
                then (do
                  (renewed, frame, rcv_msg) ←
                      refresh (record keyed { client_server_open = true }) turn.second
                  print_sys_info verbose server_pubkey renewed
                  pure (renewed, frames ++ frame ∷ []))
                else pure (keyed, frames))
            else pure (keyed, frames))
        else exit 1

  abbrev pub frames_of : Option Bytes → List Bytes
  frames_of none = []
  frames_of (some frame) = frame ∷ []

  unfoldable pub choose_login : Session → Turn → Io Ended
  unfolding login_server open_client_server
  choose_login s turn =
      if s.client_server_open
      then print (
          codes "You have previously logged in with "
          ++ (s.name
              ++ (codes " on port "
                  ++ (to_string s.login_port
                      ++ codes
                          ".\nPlease consider open another session or exit to continue with another user.\n"))))
        >> pure (s, [])
      else (do
        login ← login_server ssl server_pubkey s.name s.login_port turn.probe turn.trial turn.first
        let named : Session = record s { name = login.name; login_port = login.login_port } in
            if leb (length (split login.rcv_msg (codes "\n"))) 2
            then show_message login.rcv_msg >> pure (named, frames_of login.sent_frame)
            else open_client_server named (frames_of login.sent_frame) turn)

  unfoldable pub choose_list : Session → Turn → Io Ended
  unfolding print_sys_info
  choose_list s turn = do
    (renewed, frame, rcv_msg) ← refresh s turn.first
    if s.client_server_open
        then print_sys_info verbose server_pubkey renewed
        else show_message rcv_msg
    pure (renewed, frame ∷ [])

  -- What the handlers print: a text of `find_peer_info`, and the `what` of the exception.
  abbrev pub complaint : Bytes → List (List Bytes) → Bytes
  complaint receiver [] = codes "There is currently no online users.\nUser not found.\n"
  complaint receiver (peer ∷ peers) = elim (find_peer_info receiver (peer ∷ peers)) [
    | done info ↦ codes "stoi\n"
    | threw e ↦ codes "User not found.\n"
    | exited n ↦ []
    | undefined ↦ []
    | waits ↦ []
  ]

  -- An exception of `p2p_transaction` is caught, and ends the round; otherwise `key_text` is printed.
  abbrev pub caught :
      Session
      → List Bytes
      → Bytes
      → Bytes
      → Result (ℤ × Bytes × Bytes)
      → ((ℤ × Bytes × Bytes) → Io Ended)
      → Io Ended
  caught s frames complaint key_text (done sent) rest = print key_text >> rest sent
  caught s frames complaint key_text (threw e) rest = print complaint >> pure (s, frames)
  caught s frames complaint key_text (exited n) rest = print key_text >> exit n
  caught s frames complaint key_text undefined rest = go_wrong
  caught s frames complaint key_text waits rest = print key_text >> lift waits

  -- The frame of the transfer itself goes to the other client, not to the server. A name longer than
  -- `sender` and an amount that is no number are undefined.
  unfoldable pub choose_transaction : Session → Turn → Io Ended
  unfolding p2p_transaction read_number print_sys_info
  choose_transaction s turn = do
    (renewed, frame, _) ← refresh s turn.first
    if ltb (length s.name) 20 then pure tt else go_wrong
    print (codes "To: ")
    receiver ← read_into 20
    _ ← read_byte
    print (codes "Amount of money to transfer: ")
    typed ← read_number
    amount ← or_undefined typed
    _ ← read_byte
    caught renewed (frame ∷ []) (complaint receiver renewed.known.peer_list)
        (codes "\nPeer Public Key:\n" ++ (turn.peer_pubkey ++ codes "\n"))
        (p2p_transaction ssl s.name amount receiver turn.stale_msg renewed.known.peer_list
          turn.peer_pubkey server_pubkey turn.second)
        (λ (port, to_peer, rcv_msg). do
          show_message rcv_msg
          print (codes "Renewing list after transaction...\n")
          (again, frame', _) ← refresh renewed turn.third
          print_sys_info verbose server_pubkey again
          pure (again, frame ∷ (frame' ∷ [])))

  unfoldable pub choose_exit : Session → Turn → Io Ended
  unfolding end_session
  choose_exit s turn = do
    frame ← end_session ssl server_pubkey s turn.first
    print (codes "\n*****Session ended*****\n")
    pure (s, frame ∷ [])
