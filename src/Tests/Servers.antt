-- ===== src/Tests/Servers.antt =====
-- The server at small inputs.
use secure_person2person_p2p.Base.{
  ℕ, ◌≡◌, ◌<◌, refl, some, false, [], ◌∷◌, ◌++◌, bytes_eq, codes, Lacks, pos, arith, All,
}
use secure_person2person_p2p.Text.Split.Tokens.{IsToken}
use secure_person2person_p2p.Text.Number.{out_of_range, scan}
use secure_person2person_p2p.Database.Operations.{user_transaction}
use secure_person2person_p2p.Server.State.{World}
use secure_person2person_p2p.Process.{threw}
use secure_person2person_p2p.Server.Handler.{Peer, handle}
use secure_person2person_p2p.Server.Payments.{handle-transact_message}
use secure_person2person_p2p.Server.Ports.{handle_large_port}
use secure_person2person_p2p.Client.Requests.{transact_message}
use secure_person2person_p2p.Tests.Table.{Table, list_storage, list_storage_laws}
use secure_person2person_p2p.Tests.Halves.{halves, halves_laws, twice}
use secure_person2person_p2p.Tests.Toy.{toy}
use secure_person2person_p2p.Server.Lists.{online_users}
use secure_person2person_p2p.Client.Lists.{IsListed}
use secure_person2person_p2p.Tests.Bank.{accounts, accounts-IsSound}

abbrev pub stranger : Peer
stranger = record { connection = pos 9; clientip = codes "10.0.0.9"; clientport = pos 50000 }

abbrev pub world : World Table
world = record {
  db = accounts;
  client_fds = (codes "alice", some (pos 4)) ∷ ((codes "bob", some (pos 5)) ∷ []);
  current_user = pos 3;
  tmp_current_user = pos 3;
  termination_flag = false;
  events = [];
}

letters-Lacks : (d : ℕ) → d < b'a' → Lacks d (codes "alice")
letters-Lacks d h = (
  (λ e. absurd (omega arith)),
  (
    (λ e. absurd (omega arith)),
    ((λ e. absurd (omega arith)), ((λ e. absurd (omega arith)), ((λ e. absurd (omega arith)), tt))),
  ),
)

bob-Lacks : (d : ℕ) → d < b'a' → Lacks d (codes "bob")
bob-Lacks d h =
    ((λ e. absurd (omega arith)), ((λ e. absurd (omega arith)), ((λ e. absurd (omega arith)), tt)))

pub alice-IsToken : IsToken b'#' (codes "alice")
alice-IsToken = ((λ e. cc), letters-Lacks b'#' (omega arith), letters-Lacks 0 (omega arith))

pub bob-IsToken : IsToken b'#' (codes "bob")
bob-IsToken = ((λ e. cc), bob-Lacks b'#' (omega arith), bob-Lacks 0 (omega arith))

-- A connection over which nobody has logged in pays with alice's money.
handle-transact_message_example :
    (handle list_storage halves toy
      (codes "private")
      stranger
      []
      (pos 4096)
      (transact_message (codes "alice") (pos 700) (codes "bob"))
      world).1.db
    ≡ (user_transaction list_storage halves accounts
        (codes "alice")
        (codes "bob")
        (twice (pos 700))).0
handle-transact_message_example =
    handle-transact_message list_storage_laws halves_laws toy (codes "private") stranger []
      (pos 4096) (codes "alice") (codes "bob") (pos 700) world refl alice-IsToken bob-IsToken
      accounts-IsSound (omega arith) (omega arith)

handle_large_port_example :
    handle list_storage halves toy
      (codes "private")
      stranger
      []
      (pos 4096)
      (codes "alice" ++ (codes "#" ++ codes "9999999999"))
      world
    ≡ (threw out_of_range, world)
unfolding bytes_eq scan
handle_large_port_example =
    handle_large_port list_storage halves toy (codes "private") stranger [] (pos 4096)
      (codes "alice") (codes "9999999999") world refl refl alice-IsToken (λ e. cc)
      ((
        (omega arith, omega arith),
        (
          (omega arith, omega arith),
          (
            (omega arith, omega arith),
            (
              (omega arith, omega arith),
              (
                (omega arith, omega arith),
                (
                  (omega arith, omega arith),
                  (
                    (omega arith, omega arith),
                    (
                      (omega arith, omega arith),
                      ((omega arith, omega arith), ((omega arith, omega arith), tt)),
                    ),
                  ),
                ),
              ),
            ),
          ),
        ),
      ))
      (omega arith)

address-Lacks : (d : ℕ) → d < b'.' → Lacks d (codes "10.0.0.1")
address-Lacks d h = (
  (λ e. absurd (omega arith)),
  (
    (λ e. absurd (omega arith)),
    (
      (λ e. absurd (omega arith)),
      (
        (λ e. absurd (omega arith)),
        (
          (λ e. absurd (omega arith)),
          (
            (λ e. absurd (omega arith)),
            ((λ e. absurd (omega arith)), ((λ e. absurd (omega arith)), tt)),
          ),
        ),
      ),
    ),
  ),
)

address2-Lacks : (d : ℕ) → d < b'.' → Lacks d (codes "10.0.0.2")
address2-Lacks d h = (
  (λ e. absurd (omega arith)),
  (
    (λ e. absurd (omega arith)),
    (
      (λ e. absurd (omega arith)),
      (
        (λ e. absurd (omega arith)),
        (
          (λ e. absurd (omega arith)),
          (
            (λ e. absurd (omega arith)),
            ((λ e. absurd (omega arith)), ((λ e. absurd (omega arith)), tt)),
          ),
        ),
      ),
    ),
  ),
)

pub online-IsListed : All IsListed (online_users list_storage_laws accounts)
online-IsListed = (
  (
    record {
      some_text = λ e. cc;
      no_separator = letters-Lacks b'#' (omega arith);
      no_newline = letters-Lacks b'\n' (omega arith);
      no_nul = letters-Lacks 0 (omega arith);
    },
    record {
      some_text = λ e. cc;
      no_separator = address-Lacks b'#' (omega arith);
      no_newline = address-Lacks b'\n' (omega arith);
      no_nul = address-Lacks 0 (omega arith);
    },
    omega arith,
  ),
  (
    (
      record {
        some_text = λ e. cc;
        no_separator = bob-Lacks b'#' (omega arith);
        no_newline = bob-Lacks b'\n' (omega arith);
        no_nul = bob-Lacks 0 (omega arith);
      },
      record {
        some_text = λ e. cc;
        no_separator = address2-Lacks b'#' (omega arith);
        no_newline = address2-Lacks b'\n' (omega arith);
        no_nul = address2-Lacks 0 (omega arith);
      },
      omega arith,
    ),
    tt,
  ),
)
