-- ===== src/Client/Requests.antt =====
-- The client's requests to the server: `register_user`, `request_list`, `exit_server`, and the texts
-- of a login and of a transfer.
use secure_person2person_p2p.Base.{◌++◌, if◌then◌else◌, Bytes, bytes_eq, codes, c_str, ℤ}
use secure_person2person_p2p.Text.Number.{to_string}
use secure_person2person_p2p.Util.Rsa.{OpenSsl}
use secure_person2person_p2p.Util.Transport.{Sent, Received, public, send_p3, recv_p3}
use secure_person2person_p2p.Process.{Result, done, threw, exited, undefined, waits}
use secure_person2person_p2p.Server.Handler.{Receipt}
use secure_person2person_p2p.Client.Peers.{Known, parse_list_info}

-- What the menu's choices send.
abbrev pub register_message : Bytes → Bytes
register_message name = codes "REGISTER#" ++ name

abbrev pub login_message : Bytes → ℤ → Bytes
login_message name login_port = name ++ (codes "#" ++ to_string login_port)

abbrev pub transact_message : Bytes → ℤ → Bytes → Bytes
transact_message sender amount receiver =
    sender ++ (codes "#" ++ (to_string amount ++ (codes "#" ++ receiver)))

abbrev pub list_message : Bytes
list_message = codes "List"

abbrev pub exit_message : Bytes
exit_message = codes "Exit"

-- A request ends with the frame that was sent and the answer.
abbrev pub answer : Bytes → Received → Result (Bytes × Bytes)
answer frame (Received.received n msg) = done (frame, msg)
answer frame Received.exits = exited 0
answer frame Received.crashes = undefined

module _ {Key : Type 0} (ssl : OpenSsl Key) (server_pubkey : Bytes) where
  -- `send_P3` and `recv_P3` under the server's public key. `r` is what the `recv` did.
  unfoldable pub exchange : Bytes → Receipt → Result (Bytes × Bytes)
  exchange snd_msg r = elim (send_p3 ssl (c_str snd_msg) server_pubkey public) [
    | Sent.sent frame ↦ answer frame (recv_p3 ssl r.rcv_byte r.bytes r.stale server_pubkey public)
    | Sent.exits ↦ exited 0
    | Sent.crashes ↦ undefined
  ]

  unfoldable pub register_user : Bytes → Receipt → Result (Bytes × Bytes)
  unfolding exchange
  register_user tmp_name r = exchange (register_message tmp_name) r

  unfoldable pub exit_server : Receipt → Result (Bytes × Bytes)
  unfolding exchange
  exit_server r = exchange exit_message r

  -- Any answer but one is parsed; what the client knew stays otherwise.
  unfoldable pub renew : Known → Bytes → Result Known
  renew before rcv_msg =
      if bytes_eq rcv_msg (codes "Please login first\n")
      then done before
      else parse_list_info rcv_msg

  unfoldable pub request_list : Known → Receipt → Result Known
  unfolding exchange renew
  request_list before r = elim (exchange list_message r) [
    | done (frame, rcv_msg) ↦ renew before rcv_msg
    | threw e ↦ threw e
    | exited n ↦ exited n
    | undefined ↦ undefined
    | waits ↦ waits
  ]
