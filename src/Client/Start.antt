-- ===== src/Client/Start.antt =====
-- The start of the client: `main` of src/client.cpp up to its menu. The clock is not modelled.
use secure_person2person_p2p.Base.{
  ℕ, Bool, true, false, ◌||◌, List, [], ◌∷◌, ◌++◌, none, ltb, if◌then◌else◌, length, Bytes,
  bytes_eq, codes, c_str, ℤ, pos,
}
use secure_person2person_p2p.Process.Console.{
  Io, pure, exit, go_wrong, print, or_undefined, ◌>>=◌, ◌>>◌,
}
use secure_person2person_p2p.Process.Ports.{htons}
use secure_person2person_p2p.Server.Start.{atoi}
use secure_person2person_p2p.Client.Session.{Session, get_info}

abbrev pub default_ip_address : Bytes
default_ip_address = codes "10.211.55.4"

abbrev pub default_port : ℤ
default_port = pos 8888

abbrev pub usage : Bytes
usage =
    codes "Please specify an IP address and a port number to connect to.\n"
    ++ (codes "Usage: ./client <IP_address> <port_number>\n"
        ++ (codes "By default, IP_address should be 127.0.0.1;\n"
            ++ (codes "port_number should be an integer between 1024 and 65535.\n"
                ++ codes "Now running on default...\n")))

-- `SERVER_IP_ADDRESS`, `SERVER_PORT` and `verbose`.
pub record Target : Type 0 where
  pub ip_address : Bytes
  pub port : ℤ
  pub verbose : Bool

-- The address is copied into 20 bytes, and a longer one is undefined.
abbrev pub addressed : Bool → Bytes → Bytes → Io Target
addressed verbose ip port = do
  if ltb (length ip) 20 then pure tt else go_wrong
  n ← or_undefined (atoi port)
  pure (record { ip_address = ip; port = n; verbose = verbose })

abbrev pub default_target : Io Target
default_target =
    print usage
    >> pure (record { ip_address = default_ip_address; port = default_port; verbose = false })

abbrev pub is_verbose : Bytes → Bool
is_verbose arg = bytes_eq arg (codes "-v") || bytes_eq arg (codes "--verbose")

-- The `switch` on the arguments behind the program's name.
unfoldable pub target_of : List Bytes → Io Target
unfolding atoi
target_of [] = default_target
target_of (ip ∷ []) = default_target
target_of (ip ∷ (port ∷ [])) = addressed false ip port
target_of (ip ∷ (port ∷ (third ∷ []))) =
    if is_verbose third then addressed true ip port else default_target
target_of (ip ∷ (port ∷ (third ∷ (fourth ∷ rest)))) = default_target

-- What the network answers: whether `socket` and `connect` to an address and a port succeed, the
-- bytes of the buffer after the first `recv`, and the address in dots.
pub record Network : Type 0 where
  pub socket_ok : Bool
  pub connects : Bytes → ℕ → Bool
  pub greeting : Bytes
  pub dotted : Bytes → Bytes

abbrev pub nobody : Session
nobody = record {
  opt = none;
  name = [];
  login_port = pos 0;
  client_server_open = false;
  known = record { acct_balance = pos 0; online_num = pos 0; peer_list = [] };
  uid = [];
  public_key = [];
  private_key = [];
}

-- The target, the server's key, and the session with which the menu begins.
unfoldable pub main : List Bytes → Network → Io (Target × Bytes × Session)
unfolding target_of get_info
main args net = do
  target ← target_of args
  if net.socket_ok
      then (if net.connects target.ip_address (htons target.port)
          then (do
            get_info (net.dotted target.ip_address) (htons target.port)
            print (codes "Server Public Key:\n" ++ (c_str net.greeting ++ codes "\n"))
            print (if target.verbose then codes "Verbose mode is on.\n" else [])
            pure (target, c_str net.greeting, nobody))
          else exit 1)
      else exit 1
