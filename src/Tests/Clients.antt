-- ===== src/Tests/Clients.antt =====
-- The client at small inputs.
use secure_person2person_p2p.Base.{
  ℕ, ◌≡◌, ◌≢◌, ◌<◌, ◌⊎◌, inl, inr, [], ◌∷◌, bytes_eq, codes, Lacks, pos, arith, if◌then◌else◌,
}
use secure_person2person_p2p.Text.Number.{to_string}
use secure_person2person_p2p.Database.Storage.{Client}
use secure_person2person_p2p.Server.Commands.{register, login, parse_command}
use secure_person2person_p2p.Client.Peers.{Known, find_peer_info}
use secure_person2person_p2p.Client.Requests.{login_message}
use secure_person2person_p2p.Client.Lists.{IsListed, peer}
use secure_person2person_p2p.Client.Lookup.{listed, entry, find_peer_info-listed}
use secure_person2person_p2p.Client.Messages.{parse_command-login_message}
use secure_person2person_p2p.Tests.Texts.{ab-IsToken}

-- The user ab at the address 1.1, port 8001.
abbrev ab : Client
ab = record {
  username = codes "ab";
  ip = codes "1.1";
  public_port = pos 40000;
  private_port = pos 8001;
  online_status = pos 1;
  balance = pos 9500;
  fd = pos 4;
}

byte : (a b : ℕ) → (a < b) ⊎ (b < a) → a ≢ b
byte a b (inl h) e = absurd (omega arith)
byte a b (inr h) e = absurd (omega arith)

ab-Lacks : (d : ℕ) → (d < b'a') → Lacks d (codes "ab")
ab-Lacks d h = (byte b'a' d (inr (omega arith)), (byte b'b' d (inr (omega arith)), tt))

ip-Lacks : (d : ℕ) → (d < b'.') → Lacks d (codes "1.1")
ip-Lacks d h = (
  byte b'1' d (inr (omega arith)),
  (byte b'.' d (inr (omega arith)), (byte b'1' d (inr (omega arith)), tt)),
)

ab-IsListed : IsListed ab
ab-IsListed = (
  record {
    some_text = λ e. cc;
    no_separator = ab-Lacks b'#' (omega arith);
    no_newline = ab-Lacks b'\n' (omega arith);
    no_nul = ab-Lacks 0 (omega arith);
  },
  record {
    some_text = λ e. cc;
    no_separator = ip-Lacks b'#' (omega arith);
    no_newline = ip-Lacks b'\n' (omega arith);
    no_nul = ip-Lacks 0 (omega arith);
  },
  omega arith,
)

find_peer_info-listed_example :
    find_peer_info (codes "ab") (peer ab ∷ []) ≡ entry (listed (codes "ab") (ab ∷ []))
find_peer_info-listed_example =
    find_peer_info-listed (codes "ab") (ab ∷ []) (ab-Lacks 0 (omega arith)) (ab-IsListed, tt)

abbrev pub nothing : Known
nothing = record { acct_balance = pos 0; online_num = pos 0; peer_list = [] }

parse_command-login_message_example : parse_command (login_message (codes "ab") (pos 8001)) ≡ (
  if bytes_eq (codes "ab") (codes "REGISTER") then register else login,
  codes "ab" ∷ (to_string (pos 8001) ∷ []),
)
parse_command-login_message_example = parse_command-login_message (codes "ab") 8001 ab-IsToken
