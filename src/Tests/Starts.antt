-- ===== src/Tests/Starts.antt =====
-- Starts and ends of the programs, and the making of keys, at small inputs.
use secure_person2person_p2p.Base.{◌≡◌, refl, true, false, [], ◌∷◌, codes, pos, negsuc, some, arith}
use secure_person2person_p2p.Text.Number.{to_string}
use secure_person2person_p2p.Process.{done}
use secure_person2person_p2p.Process.Console.{Console}
use secure_person2person_p2p.Process.Ports.{Probe}
use secure_person2person_p2p.Database.Operations.{initialise}
use secure_person2person_p2p.Database.Lifecycle.{removed, absent, failed}
use secure_person2person_p2p.Server.System.{Thread, stopped}
use secure_person2person_p2p.Server.Start.{limit_of, yes_or_no, Kernel, main}
use secure_person2person_p2p.Server.Start.Limits.{limit_of-clamp}
use secure_person2person_p2p.Server.Start.Opening.{main-chosen}
use secure_person2person_p2p.Base.{Bytes}
use secure_person2person_p2p.Server.State.{closes}
use secure_person2person_p2p.Server.Shutdown.{sigint_handler, next_run, sigint_handler-restart}
use secure_person2person_p2p.Tests.Table.{Table, list_storage, list_storage_laws}
use secure_person2person_p2p.Tests.Bank.{accounts}
use secure_person2person_p2p.Tests.Servers.{world}

-- A wrong answer, a newline, and then both answers, with more behind them.
abbrev typed : Console
typed = record { input = codes "x\nY\nn\n"; output = []; commands = [] }

abbrev probe : Probe
probe = record { socket_ok = true; bind_ok = true; named = some 40000 }

abbrev kernel : Kernel
kernel = record { socket_ok = true; binds = λ p. true; listen_ok = true }

limit_of-clamp_example : limit_of 8 (negsuc 2) ≡ pos 8
limit_of-clamp_example = limit_of-clamp 8 (negsuc 2) (omega arith) (omega arith, omega arith)

main-chosen_example :
    (main list_storage 8 probe kernel
      (to_string (pos 8888) ∷ (to_string (pos 3) ∷ []))
      (pos 0)
      (pos 0)
      accounts
      typed).0
    ≡ done (record {
      config = record { server_port = some (pos 8888); limit = pos 3; verbose = true };
      port = 8888;
      erase = false;
      table = initialise list_storage accounts false;
    })
unfolding yes_or_no
main-chosen_example =
    main-chosen list_storage 8 8888 3 probe kernel (pos 0) accounts (codes "x\n") (codes "\n") b'Y'
      b'n' true false (codes "\n") typed (omega arith) (omega arith) (omega arith) (omega arith)
      refl refl refl (refl, (refl, tt)) refl (refl, tt) refl refl

sigint_handler-restart_example :
    let after = (sigint_handler (pos 2) (pos 3) true absent world).0 in
    let run = next_run list_storage_laws (pos 2) (pos 3) world [] (pos 0) typed in
    ((t : Thread) → stopped t after ≡ true)
    × (after.events ≡ closes (pos 3) ∷ (closes (pos 4) ∷ (closes (pos 5) ∷ [])))
    × (run false absent false ≡ done accounts)
    × ((what : Bytes) → run true (failed what) false ≡ done accounts)
    × (run true removed false ≡ done [])
    × (run true absent false ≡ done [])
    × ((t : Table) × (run true absent true ≡ done t) × (t ≡ []))
sigint_handler-restart_example =
    sigint_handler-restart list_storage_laws (pos 2) (pos 3) true absent world
      ((codes "alice", pos 4) ∷ ((codes "bob", pos 5) ∷ [])) [] (pos 0) typed refl
