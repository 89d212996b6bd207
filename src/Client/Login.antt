-- ===== src/Client/Login.antt =====
-- `login_server` of src/client.cpp. A variable of the program that a `scanf` or a `strcat` would
-- overrun makes the step undefined.
pub mod Request
use secure_person2person_p2p.Base.{
  ℕ, Bool, true, false, ◌++◌, Option, none, some, ◌==◌, ltb, if◌then◌else◌, length, Bytes, codes, ℤ,
  pos, eq_ℤ,
}
use secure_person2person_p2p.Text.Number.{stoi, to_string}
use secure_person2person_p2p.Process.Console.{
  Io, pure, exit, go_wrong, print, lift, or_throw, or_undefined, read_byte, read_word, ◌>>=◌, ◌>>◌,
}
use secure_person2person_p2p.Process.Ports.{Probe, find_port, htons}
use secure_person2person_p2p.Process.Questions.{ask}
use secure_person2person_p2p.Util.Rsa.{OpenSsl}
use secure_person2person_p2p.Server.Handler.{Receipt}
use secure_person2person_p2p.Client.Requests.{exchange, login_message}

-- Only these two letters are answers.
unfoldable pub yes_or_no : ℕ → Option Bool
yes_or_no c = if c == b'Y' then some true else if c == b'n' then some false else none

-- `%s` into an array of `size` bytes.
abbrev pub read_into : ℕ → Io Bytes
read_into size = read_word >>= λ word. if ltb (length word) size then pure word else go_wrong

abbrev pub account_question : Bytes
account_question = codes "Using the JUST registered account?[Y/n] "

-- The name to log in with; the one that was registered last is `name`.
unfoldable pub choose_name : Bytes → Io Bytes
unfolding yes_or_no
choose_name name = do
  same ← ask yes_or_no account_question
  if same then pure name else print (codes "Enter username: ") >> read_into 20

abbrev requesting : Bytes → ℤ → Bytes
requesting name p =
    codes "Requesting " ++ (name ++ (codes " on port # " ++ (to_string p ++ codes "...\n")))

-- The port that was typed; `login_port` is what it was before, and stays if `getsockname` fails.
unfoldable pub port_of : Bytes → ℤ → Probe → Bytes → Io ℤ
unfolding find_port
port_of name login_port probe user_port = do
  _ ← read_byte
  n ← or_throw (stoi user_port)
  if eq_ℤ n (pos 0)
      then find_port (requesting name) (some login_port) probe >>= or_undefined
      else pure n

unfoldable pub choose_port : Bytes → ℤ → Probe → Io ℤ
unfolding port_of
choose_port name login_port probe = do
  print (codes "Enter port (enter 0 if you are not sure which port to use): ")
  user_port ← read_into 6
  port_of name login_port probe user_port

-- Whether the kernel gives a socket to try the port with, and the ports that it binds.
pub record Trial : Type 0 where
  pub socket_ok : Bool
  pub binds : ℕ → Bool

-- The name and the port as they are afterwards, the frame that was sent, if any, and `rcv_msg`.
pub record Login : Type 0 where
  pub name : Bytes
  pub login_port : ℤ
  pub sent_frame : Option Bytes
  pub rcv_msg : Bytes

abbrev pub refusal : ℤ → Bytes
refusal login_port = codes "Couldn't allocate to port # " ++ to_string login_port

module _ {Key : Type 0} (ssl : OpenSsl Key) (server_pubkey : Bytes) where
  -- The port is tried, and the request sent.
  unfoldable pub request_login : Bytes → ℤ → Trial → Receipt → Io Login
  unfolding exchange
  request_login name login_port trial r =
      if trial.socket_ok
      then (if trial.binds (htons login_port)
          then (do
            (frame, rcv_msg) ← lift (exchange ssl server_pubkey (login_message name login_port) r)
            pure (record {
              name = name;
              login_port = login_port;
              sent_frame = some frame;
              rcv_msg = rcv_msg;
            }))
          else pure (record {
            name = name;
            login_port = login_port;
            sent_frame = none;
            rcv_msg = refusal login_port;
          }))
      else exit 1

  unfoldable pub login_server : Bytes → ℤ → Probe → Trial → Receipt → Io Login
  unfolding choose_name choose_port request_login
  login_server name login_port probe trial r = do
    user ← choose_name name
    port ← choose_port user login_port probe
    request_login user port trial r
