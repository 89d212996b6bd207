-- ===== src/Tests/Runs.antt =====
-- The server with its threads at small inputs.
use secure_person2person_p2p.Base.{refl, [], ◌∷◌, codes, pos, arith}
use secure_person2person_p2p.Server.State.{◌>>=◌}
use secure_person2person_p2p.Server.Handler.{Receipt, process_request}
use secure_person2person_p2p.Server.System.{
  System, accepted, start, opening, Reach, here, next, accepts, starts,
}
use secure_person2person_p2p.Server.Runs.{IsCounted, Reach-IsCounted, WholeAmounts, Reach-IsSound}
use secure_person2person_p2p.Server.Threads.{Counts, process_request-Counts}
use secure_person2person_p2p.Database.Validity.{IsSound}
use secure_person2person_p2p.Tests.Table.{Table, list_storage, list_storage_laws}
use secure_person2person_p2p.Tests.Halves.{halves, halves_laws}
use secure_person2person_p2p.Tests.Toy.{toy}
use secure_person2person_p2p.Tests.Bank.{accounts, accounts-IsSound}
use secure_person2person_p2p.Tests.Servers.{stranger, world}

abbrev Anything : Receipt → Type 0
Anything r = Unit {0}

-- One connection that waits, and then has a thread.
abbrev queued : System Table
queued = record (start accounts) {
  world = accepted (start accounts).world;
  waiting = stranger ∷ [];
}

abbrev served : (Receipt → Type 0) → System Table
served Fine = record queued {
  world =
      (opening list_storage halves toy (codes "public") (codes "private") 2 Fine stranger
        queued.world).1;
  waiting = [];
  running = record { peer = stranger; username = [] } ∷ [];
}

two_steps :
    (Fine : Receipt → Type 0)
    → Reach list_storage halves toy
        (codes "public")
        (codes "private")
        2
        Fine
        (start accounts)
        (served Fine)
two_steps Fine = next (next here (accepts stranger)) (starts stranger [] refl (omega arith))

Reach-IsCounted_example : IsCounted 2 (served Anything)
Reach-IsCounted_example = Reach-IsCounted accounts (two_steps Anything)

abbrev WholeOnly : Receipt → Type 0
WholeOnly = WholeAmounts list_storage_laws halves_laws toy (codes "public") (codes "private") 2

Reach-IsSound_example : IsSound list_storage_laws (served WholeOnly).world.db
unfolding ◌>>=◌
Reach-IsSound_example =
    Reach-IsSound list_storage_laws halves_laws toy (codes "public") (codes "private") 2 accounts
      (two_steps WholeOnly) accounts-IsSound (omega arith)

process_request-Counts_example : Counts (pos 3) (
    process_request list_storage halves toy
      (codes "private")
      (codes "public")
      (codes "init")
      stranger
      (record { rcv_byte = pos 0; bytes = []; stale = [] } ∷ [])
      world)
process_request-Counts_example =
    process_request-Counts list_storage halves toy (codes "private") (codes "public") stranger
      (record { rcv_byte = pos 0; bytes = []; stale = [] } ∷ []) world

-- A connection is accepted and gets a thread while `alice` and `bob` are online.
abbrev busy : System Table
busy = record { world = world; waiting = []; running = []; broken = 0 }

abbrev busier : System Table
busier = record {
  world =
      (opening list_storage halves toy (codes "public") (codes "private") 2 WholeOnly stranger
        (accepted world)).1;
  waiting = [];
  running = record { peer = stranger; username = [] } ∷ [];
  broken = 0;
}
