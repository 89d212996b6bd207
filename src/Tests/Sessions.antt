-- ===== src/Tests/Sessions.antt =====
-- A list that is asked for, a session that ends and a login that is refused, at small inputs.
use secure_person2person_p2p.Base.{
  Option, Bool, ◌≡◌, refl, [], ◌∷◌, Bytes, codes, bytes_eq, pos, arith, false, ◌++◌, true, none,
  some, ap, sym,
}
use secure_person2person_p2p.Text.Number.{to_string}
use secure_person2person_p2p.Database.Spec.{bank, assign}
use secure_person2person_p2p.Database.Operations.{list_info, is_online}
use secure_person2person_p2p.Process.{done}
use secure_person2person_p2p.Server.Handler.{again, receive, serve, leaves, Peer}
use secure_person2person_p2p.Client.Requests.{exchange, list_message, request_list}
use secure_person2person_p2p.Protocol.Wire.{receipt, told}
use secure_person2person_p2p.Tests.Table.{Table, list_storage, list_storage_laws, load}
use secure_person2person_p2p.Tests.Halves.{halves}
use secure_person2person_p2p.Tests.Toy.{toy, toy-IsPair}
use secure_person2person_p2p.Tests.Bank.{alice, bob, accounts, accounts-IsSound}
use secure_person2person_p2p.Tests.Servers.{world, stranger, online-IsListed, bob-IsToken}
use secure_person2person_p2p.Tests.Terminals.{console, turn, member, probe, trial}
use secure_person2person_p2p.Database.Sessions.{closed}
use secure_person2person_p2p.Client.Lists.{peer}
use secure_person2person_p2p.Client.Menu.{rounds}
use secure_person2person_p2p.Client.Menu.Exit.{removals, parted}
use secure_person2person_p2p.Protocol.Refresh.{request_list-served}
use secure_person2person_p2p.Protocol.Exit.{ended, rounds-served}
use secure_person2person_p2p.Server.Entries.{Entries, IsErased, Dangles}
use secure_person2person_p2p.Tests.Clients.{nothing}
use secure_person2person_p2p.Tests.Protocol.{wire, wire-IsWhole}
use secure_person2person_p2p.Database.Storage.{Row}
use secure_person2person_p2p.Client.Login.{login_server}
use secure_person2person_p2p.Protocol.Login.Refused.{login_server-refused}

-- `alice` asks who is online.
request_list-served_example :
    (c : Bytes) × (c' : Bytes) × (exchange toy (codes "public") list_message (receipt wire c')
      ≡ done (c, codes "12000\n2\nalice#10.0.0.1#8001\nbob#10.0.0.2#8002\n"))
    × (receive list_storage halves toy
          (codes "private")
          stranger
          (codes "alice")
          (receipt wire c)
          world
        ≡ (done (again (codes "alice")), told world (pos 9) c'))
    × (request_list toy (codes "public") nothing (receipt wire c')
        ≡ done (record {
          acct_balance = pos 12000;
          online_num = pos 2;
          peer_list = peer (load alice) ∷ (peer (load bob) ∷ []);
        }))
unfolding bytes_eq to_string list_info
request_list-served_example =
    request_list-served list_storage_laws halves toy-IsPair nothing stranger (codes "alice") alice
      world wire wire refl accounts-IsSound.valid refl refl (omega arith) (omega arith)
      online-IsListed (omega arith) wire-IsWhole wire-IsWhole

-- The connection over which `alice` has logged in.
abbrev member_peer : Peer
member_peer = record { connection = pos 4; clientip = codes "10.0.0.1"; clientport = pos 40000 }

rounds-served_example :
    (c : Bytes) × (c' : Bytes) × (t : Table) × (kept : Entries) × (fds : Entries) × (out : Bytes)
    × (rounds toy
          (codes "public")
          false
          (record turn { first = receipt wire c' } ∷ [])
          (record member { uid = codes "Ab3d5" })
          []
          (console (codes "\n5\nrest"))
        ≡ (
          done (
            parted toy (codes "public") false (record member { uid = codes "Ab3d5" }),
            [] ++ c ∷ [],
          ),
          record { input = codes "rest"; output = out; commands = [] ++ removals (codes "Ab3d5") },
        ))
    × (serve list_storage halves toy
          (codes "private")
          member_peer
          (codes "alice")
          (receipt wire c ∷ (receipt wire [] ∷ []))
          world
        ≡ (done leaves, ended world t fds (pos 4) c'))
    × IsErased
        (codes "alice")
        ((codes "alice", some (pos 4)) ∷ ((codes "bob", some (pos 5)) ∷ []))
        kept
    × Dangles (pos 4) kept fds
    × ((v : Bytes)
        → bank list_storage_laws t v
          ≡ assign (bank list_storage_laws accounts) (codes "alice") (closed alice) v)
unfolding bytes_eq
rounds-served_example =
    rounds-served list_storage_laws halves toy-IsPair false turn []
      (record member { uid = codes "Ab3d5" }) [] (codes "rest") (console (codes "\n5\nrest"))
      member_peer (codes "alice") alice (receipt wire [] ∷ []) world wire wire refl refl refl refl
      refl accounts-IsSound.valid refl wire-IsWhole wire-IsWhole

abbrev has_online : Option Row → Bool
has_online none = false
has_online (some r) = is_online r

bob_online : (r : Row) → bank list_storage_laws accounts (codes "bob") ≡ some r → is_online r ≡ true
unfolding bytes_eq
bob_online r e = sym (ap has_online e)

-- `bob` is online already.
login_server-refused_example :
    (c : Bytes) × (c' : Bytes) × ((login_server toy
        (codes "public")
        (codes "al")
        (pos 0)
        probe
        trial
        (receipt wire c')
        (console (codes "n\nbob\n8003\n"))).0
      ≡ done (record {
        name = codes "bob";
        login_port = pos 8003;
        sent_frame = some c;
        rcv_msg = codes "230 DUPLICATE_LOGIN\n";
      }))
    × (receive list_storage halves toy (codes "private") stranger [] (receipt wire c) world
        ≡ (done (again []), told world (pos 9) c'))
unfolding bytes_eq to_string
login_server-refused_example =
    login_server-refused list_storage_laws halves toy-IsPair (codes "al") (pos 0) probe trial []
      (codes "bob") [] 8003 (console (codes "n\nbob\n8003\n")) stranger [] world wire wire tt
      ((λ e. cc), (refl, (refl, (refl, tt)))) bob-IsToken (omega arith) refl (omega arith)
      (omega arith) (omega arith) refl refl refl accounts-IsSound.valid (bob_online) wire-IsWhole
      wire-IsWhole
