-- ===== src/Tests/Protocol.antt =====
-- Whole exchanges between clients and the server at small inputs.
use secure_person2person_p2p.Base.{
  ℕ, ◌≡◌, ◌≤◌, refl, List, [], ◌∷◌, some, Bytes, codes, bytes_eq, length, pos, arith, c_str,
}
use secure_person2person_p2p.Text.Number.{to_string}
use secure_person2person_p2p.Text.Split.{split}
use secure_person2person_p2p.Text.Split.Loop.{Loop, split-Loop}
use secure_person2person_p2p.Database.Spec
use secure_person2person_p2p.Database.Spec.{bank, assign}
use secure_person2person_p2p.Database.Operations.{list_info}
use secure_person2person_p2p.Process.{done}
use secure_person2person_p2p.Util.Transport.{replicate, buffer_size, length-replicate}
use secure_person2person_p2p.Server.State.{World}
use secure_person2person_p2p.Server.Handler.{again, receive, serve}
use secure_person2person_p2p.Server.Answers.Loop.{IsServed, serve-IsServed}
use secure_person2person_p2p.Client.Peers.{parse_list_info}
use secure_person2person_p2p.Client.Transfers.{IsBlank}
use secure_person2person_p2p.Client.Login.{login_server}
use secure_person2person_p2p.Protocol.Wire.{Wire, IsWhole, receipt, told}
use secure_person2person_p2p.Protocol.Login.Round.{entered}
use secure_person2person_p2p.Protocol.Login.{online_row, entered_table, login_server-served}
use secure_person2person_p2p.Tests.Table.{Table, list_storage, list_storage_laws}
use secure_person2person_p2p.Tests.Halves.{halves}
use secure_person2person_p2p.Tests.Toy.{toy, toy-IsPair}
use secure_person2person_p2p.Tests.Bank.{carol}
use secure_person2person_p2p.Tests.Servers.{world, stranger}
use secure_person2person_p2p.Tests.Terminals.{console, probe, trial}

abbrev pub wire : Wire
wire = record { rcv_byte = pos 4096; arrived = 4096; stale = replicate buffer_size 7 }

-- Memory of `MAX_LENGTH` bytes, of which the first is NUL.
abbrev pub fresh : Bytes
fresh = 0 ∷ replicate 2047 7

pub fresh-IsBlank : IsBlank fresh
unfolding c_str
fresh-IsBlank = record { blank = refl; space = omega (arith, length-replicate 2047 7) }

pub wire-IsWhole : IsWhole wire
unfolding bytes_eq
wire-IsWhole = record {
  no_error = refl;
  enough = omega arith;
  room = omega (arith, length-replicate buffer_size 7);
}

split-Loop_example :
    (n : ℕ) × (n ≤ length (c_str (codes "a##b")))
    × Loop (c_str (codes "#")) (c_str (codes "a##b")) [] n (split (codes "a##b") (codes "#"))
split-Loop_example = split-Loop (codes "a##b") (codes "#")

-- Two messages, the second of them empty.
serve-IsServed_example : IsServed stranger 2 [] (
    serve list_storage halves toy
      (codes "private")
      stranger
      []
      (receipt wire [] ∷ (receipt wire [] ∷ []))
      world)
serve-IsServed_example =
    serve-IsServed list_storage halves toy (codes "private") stranger []
      (receipt wire [] ∷ (receipt wire [] ∷ [])) world

abbrev pub peers : List (List Bytes)
peers = (codes "bob" ∷ (codes "10.0.0.2" ∷ (codes "8002" ∷ []))) ∷ []

-- `carol` alone, who logs in.
abbrev alone : World Table
alone = record world { db = carol ∷ []; client_fds = [] }

login_server-served_example :
    let t = entered_table list_storage_laws (carol ∷ []) carol stranger (pos 8003) in
    let after = online_row carol stranger (pos 8003) in
    (c : Bytes) × (c' : Bytes) × ((login_server toy
        (codes "public")
        (codes "al")
        (pos 0)
        probe
        trial
        (receipt wire c')
        (console (codes "n\ncarol\n8003\n"))).0
      ≡ done (record {
        name = codes "carol";
        login_port = pos 8003;
        sent_frame = some c;
        rcv_msg = codes "10000\n1\ncarol#10.0.0.9#8003\n";
      }))
    × (receive list_storage halves toy (codes "private") stranger [] (receipt wire c) alone
        ≡ (done (again (codes "carol")), told (entered alone t (codes "carol") (pos 9)) (pos 9) c'))
    × ((v : Bytes)
        → bank list_storage_laws t v
          ≡ assign (bank list_storage_laws (carol ∷ [])) (codes "carol") after v)
    × (parse_list_info (codes "10000\n1\ncarol#10.0.0.9#8003\n")
        ≡ done (record {
          acct_balance = pos 10000;
          online_num = pos 1;
          peer_list = (codes "carol" ∷ (codes "10.0.0.9" ∷ (codes "8003" ∷ []))) ∷ [];
        }))
unfolding bytes_eq to_string list_info
login_server-served_example =
    login_server-served list_storage_laws halves toy-IsPair (codes "al") (pos 0) probe trial []
      (codes "carol") [] 8003 (console (codes "n\ncarol\n8003\n")) stranger [] carol alone wire wire
      tt ((λ e. cc), (refl, (refl, (refl, (refl, (refl, tt))))))
      ((λ e. cc), omega arith, omega arith) (omega arith) refl (omega arith) (omega arith)
      (omega arith) refl refl refl (record { synced = refl; unique = (refl, tt) }) refl refl
      (omega arith) (omega arith)
      (
        (
          record {
            some_text = λ e. cc;
            no_separator = omega arith;
            no_newline = omega arith;
            no_nul = omega arith;
          },
          record {
            some_text = λ e. cc;
            no_separator = omega arith;
            no_newline = omega arith;
            no_nul = omega arith;
          },
          omega arith,
        ),
        tt,
      )
      (omega arith) wire-IsWhole wire-IsWhole
