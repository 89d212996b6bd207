-- ===== src/Client/Session.antt =====
-- The terminal side of src/client.cpp: what `print_sys_info` and `get_info` print, the numbers that
-- are typed, and the end of a session.
use secure_person2person_p2p.Base.{
  ℕ, suc, ◌+◌, ◌-◌, ◌*◌, Bool, true, false, List, [], ◌∷◌, ◌++◌, Option, none, some, ◌==◌,
  if◌then◌else◌, Bytes, codes, ℤ, pos, ltb_ℤ,
}
use secure_person2person_p2p.Text.Number.{
  is_digit, skip_spaces, to_string, Except, ok, throw, in_range,
}
use secure_person2person_p2p.Process.{Result, done, undefined, waits}
use secure_person2person_p2p.Process.Console.{
  Console, Io, pure, exit, print, lift, or_undefined, ◌>>=◌, ◌>>◌,
}
use secure_person2person_p2p.Util.Rsa.{OpenSsl}
use secure_person2person_p2p.Util.Keys.{delete_key_and_certificate}
use secure_person2person_p2p.Server.Handler.{Receipt}
use secure_person2person_p2p.Client.Peers.{Known}
use secure_person2person_p2p.Client.Requests.{exit_server}

-- The variables that a session changes. `opt` is `none` until a number is read into it.
pub record Session : Type 0 where
  pub opt : Option ℤ
  pub name : Bytes
  pub login_port : ℤ
  pub client_server_open : Bool
  pub known : Known
  pub uid : Bytes
  pub public_key : Bytes
  pub private_key : Bytes

-- One line of the list; a field that is missing is an access behind the end of a vector.
unfoldable pub peer_line : ℕ → List Bytes → Option Bytes
peer_line i (user ∷ (ip ∷ (port ∷ rest))) = some (
    codes "  "
    ++ (to_string (pos (i + 1))
        ++ (codes " - " ++ (user ++ (codes "#" ++ (ip ++ (codes "#" ++ (port ++ codes "\n"))))))))
peer_line i (user ∷ (ip ∷ [])) = none
peer_line i (user ∷ []) = none
peer_line i [] = none

unfoldable pub print_peers : ℕ → List (List Bytes) → Io (Unit {0})
unfolding peer_line
print_peers i [] = pure tt
print_peers i (peer ∷ peers) =
    or_undefined (peer_line i peer) >>= λ line. print line >> print_peers (suc i) peers

abbrev pub key_text : Bool → Bytes → Bytes
key_text true server_pubkey = codes "Server Public Key: \n" ++ (server_pubkey ++ codes "\n")
key_text false server_pubkey = []

unfoldable pub print_sys_info : Bool → Bytes → Session → Io (Unit {0})
unfolding print_peers
print_sys_info verbose server_pubkey s = do
  print (
      codes "\n*****System Information*****\nUsername: "
      ++ (s.name
          ++ (codes "\nAccount Balance: "
              ++ (to_string s.known.acct_balance
                  ++ (codes "\n"
                      ++ (key_text verbose server_pubkey
                          ++ (codes "Online User #: "
                              ++ (to_string s.known.online_num ++ codes "\n"))))))))
  if ltb_ℤ (pos 0) s.known.online_num
      then print (codes "Peer List (# - <name>#<IP>#<port>):\n") >> print_peers 0 s.known.peer_list
      else pure tt
  print (codes "\n")

-- The address as `inet_ntoa` writes it, and the port.
unfoldable pub get_info : Bytes → ℕ → Io (Unit {0})
get_info ip port = do
  print (codes "Connect to IP address: " ++ (ip ++ codes "\n"))
  print (codes "On port: " ++ (to_string (pos port) ++ codes "\n"))

-- The digits up to the next byte that is none; `none` if it was not typed yet.
unfoldable pub scan_digits : ℕ → Bytes → Option (ℕ × Bytes)
scan_digits n [] = none
scan_digits n (c ∷ s) =
    let more = scan_digits (n * 10 + (c - b'0')) s in if is_digit c then more else some (n, c ∷ s)

-- A number beyond an `int` is undefined.
abbrev pub fitting : Except ℤ → Result (Option ℤ)
fitting (ok n) = done (some n)
fitting (throw e) = undefined

abbrev pub scanned : Bool → Option (ℕ × Bytes) → Console → Result (Option ℤ) × Console
scanned negative none c = (waits, record c { input = [] })
scanned negative (some (n, rest)) c = (fitting (in_range negative n), record c { input = rest })

-- Behind the sign.
unfoldable pub scan_number : Bool → Bytes → Console → Result (Option ℤ) × Console
unfolding scan_digits
scan_number negative [] c = (waits, record c { input = [] })
scan_number negative (d ∷ s) c =
    if is_digit d
    then scanned negative (scan_digits 0 (d ∷ s)) c
    else (done none, record c { input = d ∷ s })

unfoldable pub scan_signed : Bytes → Console → Result (Option ℤ) × Console
unfolding scan_number
scan_signed [] c = (waits, record c { input = [] })
scan_signed (d ∷ s) c =
    if d == b'-'
    then scan_number true s c
    else if d == b'+'
    then scan_number false s c
    else scan_number false (d ∷ s) c

-- `scanf("%d", …)`; `none` if what is there is no number, and the variable stays as it was.
unfoldable pub read_number : Io (Option ℤ)
unfolding scan_signed
read_number c = scan_signed (skip_spaces c.input) c

module _ {Key : Type 0} (ssl : OpenSsl Key) (server_pubkey : Bytes) where
  -- `exit_server` with what it prints, and the keys that it removes; it gives the frame that was sent.
  unfoldable pub end_session : Session → Receipt → Io Bytes
  unfolding exit_server delete_key_and_certificate
  end_session s r = do
    print (
        if s.client_server_open
        then codes "See you next time, " ++ (s.name ++ codes "!\n")
        else codes "See you next time!\n")
    (frame, rcv_msg) ← lift (exit_server ssl server_pubkey r)
    if s.client_server_open
        then delete_key_and_certificate s.uid (codes "certs") (codes "client") (codes "client")
        else pure tt
    pure frame

  unfoldable pub sigint_handler : ℤ → Session → Receipt → Io Bytes
  unfolding end_session
  sigint_handler signal s r = do
    print (codes "Single Handler: caught signal " ++ (to_string signal ++ codes "\n"))
    _ ← end_session s r
    print (codes "Session terminated.\n")
    exit 1
