-- ===== src/Tests/Terminals.antt =====
-- Keys and a client's session at small inputs.
use secure_person2person_p2p.Base.{
  ℕ, ◌*◌, ◌%◌, ◌≡◌, refl, ◌++◌, true, false, [], ◌∷◌, codes, pos, none, some, ltb, Bytes, c_str,
  arith, All,
}
use secure_person2person_p2p.Process.{done}
use secure_person2person_p2p.Process.Console.{Console, ◌>>=◌}
use secure_person2person_p2p.Process.Ports.{Probe}
use secure_person2person_p2p.Process.Ensures.{Ends}
use secure_person2person_p2p.Util.Keys.{
  read_key, create_key_and_certificate, delete_key_and_certificate,
}
use secure_person2person_p2p.Util.Keys.Files.{read_key-terminated}
use secure_person2person_p2p.Util.Keys.Letters.{IsAlnum}
use secure_person2person_p2p.Util.Keys.Names.{delete-create_commands}
use secure_person2person_p2p.Server.Handler.{Receipt}
use secure_person2person_p2p.Client.Requests.{exchange, exit_message}
use secure_person2person_p2p.Client.Login.{Trial}
use secure_person2person_p2p.Client.Session.{Session}
use secure_person2person_p2p.Client.Choices.{Turn}
use secure_person2person_p2p.Client.Menu.{rounds}
use secure_person2person_p2p.Client.Menu.Exit.{removals, parted, rounds-exit}
use secure_person2person_p2p.Client.Menu.Kept.{SameLogin, rounds-SameLogin}
use secure_person2person_p2p.Client.Start.{nobody}
use secure_person2person_p2p.Tests.Toy.{block, pad, unpad, toy}
use secure_person2person_p2p.Util.Rsa.{public_encrypt, public_decrypt}
use secure_person2person_p2p.Util.Transport.{
  replicate, buffer_size, overlay, zeros, send_p3, recv_p3,
}

abbrev pub console : Bytes → Console
console input = record { input = input; output = []; commands = [] }

read_key-terminated_example : read_key (some (codes "k\n")) ≡ done (codes "k\n")
read_key-terminated_example =
    read_key-terminated (codes "k" ∷ [])
      ((((λ e. absurd (omega arith)), tt), ((λ e. absurd (omega arith)), tt)), tt)

-- The draws 0, 12, 24, 36 and 48.
abbrev draws : ℕ → ℕ
draws k = (12 * k) % 62

delete-create_commands_example :
    All IsAlnum (codes "0coAM")
    × (((create_key_and_certificate draws (codes "certs") (codes "client") (codes "client")
            >>= λ uid.
                delete_key_and_certificate uid (codes "certs") (codes "client") (codes "client"))
          (console [])).1.commands
        ≡ (codes
            "openssl req -x509 -sha256 -nodes -days 365 -newkey rsa:2048 -keyout certs/0coAM_client.key -out certs/0coAM_client.crt -subj \"/C=TW/ST=Taiwan/L=TPE/O=NTU/OU=IM/CN=localhost/emailAddress=0coAM_client@icheft\"")
          ∷ ((codes
                "openssl x509 -pubkey -noout -in certs/0coAM_client.crt > certs/0coAM_client.pem")
              ∷ (codes "rm certs/0coAM_client.key"
                  ∷ (codes "rm certs/0coAM_client.crt"
                      ∷ (codes "rm certs/0coAM_client.pem" ∷ [])))))
delete-create_commands_example =
    delete-create_commands (codes "certs") (codes "client") (codes "client") (omega arith)
      (omega arith) draws (console []) (λ i. omega arith)

abbrev pub probe : Probe
probe = record { socket_ok = true; bind_ok = true; named = none }

abbrev pub trial : Trial
trial = record { socket_ok = true; binds = λ p. ltb 1023 p }

abbrev receipt : Receipt
receipt = record { rcv_byte = pos 0; bytes = []; stale = [] }

abbrev pub member : Session
member = record nobody { name = codes "al"; login_port = pos 8001; client_server_open = true }

abbrev pub turn : Turn
turn = record {
  first = receipt;
  second = receipt;
  third = receipt;
  probe = probe;
  trial = trial;
  socket_ok = true;
  binds = λ p. true;
  listen_ok = true;
  draw = λ i. 7;
  key_file = none;
  stale_msg = replicate 2048 0;
  pubkey_file = none;
  peer_pubkey = codes "public";
}

rounds-SameLogin_example :
    Ends
      (λ ended. SameLogin member ended.0)
      (rounds toy (codes "public") false (turn ∷ []) member [] (console (codes "\n5\n"))).0
rounds-SameLogin_example =
    rounds-SameLogin toy (codes "public") false (turn ∷ []) member [] (console (codes "\n5\n")) refl

-- The server's answer to the exit.
abbrev bye : Receipt
bye = record { rcv_byte = pos 256; bytes = block (codes "Bye"); stale = replicate buffer_size 0 }

bye_lem :
    exchange toy (codes "public") exit_message bye
    ≡ done (overlay (block (codes "Exit")) zeros, codes "Bye")
unfolding exchange send_p3 recv_p3 pad unpad public_encrypt public_decrypt c_str zeros
bye_lem = refl

rounds-exit_example :
    (out : Bytes) × (rounds toy
        (codes "public")
        false
        (record turn { first = bye } ∷ [])
        (record member { uid = codes "Ab3d5" })
        []
        (console (codes "\n5\nrest"))
      ≡ (
        done (
          parted toy (codes "public") false (record member { uid = codes "Ab3d5" }),
          [] ++ overlay (block (codes "Exit")) zeros ∷ [],
        ),
        record { input = codes "rest"; output = out; commands = [] ++ removals (codes "Ab3d5") },
      ))
rounds-exit_example =
    rounds-exit toy (codes "public") false (record turn { first = bye }) []
      (record member { uid = codes "Ab3d5" }) [] (codes "rest") (console (codes "\n5\nrest"))
      (overlay (block (codes "Exit")) zeros) (codes "Bye") refl refl bye_lem refl
