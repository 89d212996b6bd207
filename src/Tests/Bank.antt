-- ===== src/Tests/Bank.antt =====
-- The database at small inputs.
use secure_person2person_p2p.Base.{
  ◌≡◌, refl, inl, inr, true, List, [], ◌∷◌, codes, bytes_eq, ℤ, pos, negsuc, ◌+ℤ◌, ◌-ℤ◌, arith, map,
}
use secure_person2person_p2p.Database.Storage.{Row}
use secure_person2person_p2p.Database.Operations.{
  user_register, user_login, user_logout, user_transaction, initialise, transfer_ok, logout_fail,
  login_success,
}
use secure_person2person_p2p.Database.Spec
use secure_person2person_p2p.Database.Spec.{IsValid, Agrees, bank, assign}
use secure_person2person_p2p.Database.Total.{total}
use secure_person2person_p2p.Database.Refinement.{user_register-refines, user_login-refines}
use secure_person2person_p2p.Database.Transfer.{user_transaction-refines}
use secure_person2person_p2p.Database.Logins.{logout-login, user_logout-twice}
use secure_person2person_p2p.Database.Validity.{IsSound}
use secure_person2person_p2p.Database.Conservation.{
  user_transaction_moves, user_transaction_conserves,
}
use secure_person2person_p2p.Database.History.{
  Call, registers, logs_in, logs_out, transfers, apply, run, run-IsSound,
}
use secure_person2person_p2p.Tests.Table.{Table, list_storage, list_storage_laws}
use secure_person2person_p2p.Tests.Halves.{halves, halves_laws, twice, half}

abbrev pub alice : Row
alice = record {
  username = codes "alice";
  ip = codes "10.0.0.1";
  public_port = pos 40000;
  private_port = pos 8001;
  online_status = pos 1;
  balance = pos 12000;
}

abbrev pub bob : Row
bob = record {
  username = codes "bob";
  ip = codes "10.0.0.2";
  public_port = pos 40001;
  private_port = pos 8002;
  online_status = pos 1;
  balance = pos 8000;
}

abbrev pub carol : Row
carol = record {
  username = codes "carol";
  ip = [];
  public_port = negsuc 0;
  private_port = negsuc 0;
  online_status = pos 0;
  balance = pos 10000;
}

abbrev dave : Row
dave = record carol { username = codes "dave" }

abbrev pub accounts : Table
accounts = alice ∷ (bob ∷ (carol ∷ (dave ∷ [])))

pub accounts-IsSound : IsSound list_storage_laws accounts
unfolding bytes_eq ◌+ℤ◌
accounts-IsSound = record {
  valid = record { synced = refl; unique = (refl, (refl, (refl, (refl, tt)))) };
  nonneg = omega arith;
  sessions =
      (inl refl, (inl refl, (inr (refl, refl, refl, refl), (inr (refl, refl, refl, refl), tt))));
  funded = refl;
}

abbrev accounts-IsValid : IsValid list_storage_laws accounts
accounts-IsValid = accounts-IsSound.valid

-- Register twice, log in, pay, pay too much, log out.
abbrev history : List Call
history =
    registers (codes "alice") (codes "10.0.0.1")
    ∷ (registers (codes "bob") (codes "10.0.0.2")
        ∷ (logs_in (codes "alice") (codes "10.0.0.1") (pos 40000) (pos 8001) (pos 4)
            ∷ (logs_in (codes "bob") (codes "10.0.0.2") (pos 40001) (pos 8002) (pos 5)
                ∷ (transfers (codes "alice") (codes "bob") (pos 500)
                    ∷ (transfers (codes "alice") (codes "bob") (pos 10000)
                        ∷ (logs_out (codes "10.0.0.1") (pos 40000) ∷ []))))))

balances : Table → List ℤ
balances = map (λ r. r.balance)

history-balances :
    balances (run list_storage halves (initialise list_storage accounts true) history)
    ≡ pos 9500 ∷ (pos 10500 ∷ [])
unfolding balances run apply initialise user_register user_login user_logout user_transaction
    bytes_eq ◌+ℤ◌ ◌-ℤ◌ twice half
history-balances = refl

run-IsSound_example :
    IsSound list_storage_laws
      (run list_storage halves (initialise list_storage accounts true) history)
run-IsSound_example =
    run-IsSound list_storage_laws halves_laws accounts history (omega arith) (omega arith)

user_transaction_conserves_example :
    total
      (user_transaction list_storage halves accounts
        (codes "alice")
        (codes "bob")
        (twice (pos 700))).0
    ≡ total accounts
user_transaction_conserves_example =
    user_transaction_conserves list_storage_laws halves_laws accounts (codes "alice") (codes "bob")
      (pos 700) accounts-IsSound (omega arith) (omega arith)

user_transaction_moves_example :
    (user_transaction list_storage halves accounts
      (codes "alice")
      (codes "bob")
      (twice (pos 700))).1
    ≡ transfer_ok
unfolding bytes_eq
user_transaction_moves_example =
    (user_transaction_moves list_storage_laws halves_laws accounts (codes "alice") (codes "bob")
      (pos 700) alice bob accounts-IsSound (omega arith) refl refl refl (omega arith)
      (omega arith)).0

user_transaction-refines_example :
    Agrees
      (let (t', q) =
          user_transaction list_storage halves accounts (codes "alice") (codes "dave") (pos 3) in
        (bank list_storage_laws t', q))
      (Spec.transaction halves
        (bank list_storage_laws accounts)
        (codes "alice")
        (codes "dave")
        (pos 3))
user_transaction-refines_example =
    user_transaction-refines list_storage_laws halves accounts (codes "alice") (codes "dave")
      (pos 3) accounts-IsValid

user_register-refines_example :
    Agrees
      (let (t', q) = user_register list_storage accounts (codes "erin") [] in
        (bank list_storage_laws t', q))
      (Spec.register (bank list_storage_laws accounts) (codes "erin"))
user_register-refines_example =
    user_register-refines list_storage_laws accounts (codes "erin") [] accounts-IsValid

user_login-refines_example :
    Agrees
      (let (t', q) =
          user_login list_storage accounts
            (codes "carol")
            (codes "10.0.0.3")
            (pos 40002)
            (pos 8003)
            (pos 6) in
        (bank list_storage_laws t', q))
      (Spec.login
        (bank list_storage_laws accounts)
        (codes "carol")
        (codes "10.0.0.3")
        (pos 40002)
        (pos 8003))
user_login-refines_example =
    user_login-refines list_storage_laws accounts (codes "carol") (codes "10.0.0.3") (pos 40002)
      (pos 8003) (pos 6) accounts-IsValid

logout-login_example :
    (user_login list_storage accounts
      (codes "carol")
      (codes "10.0.0.3")
      (pos 40002)
      (pos 8003)
      (pos 6)).1
    ≡ login_success
unfolding bytes_eq
logout-login_example =
    (logout-login list_storage_laws accounts (codes "carol") (codes "10.0.0.3") (pos 40002)
      (pos 8003) (pos 6) carol accounts-IsValid refl refl refl).0

abbrev after_two : Table
after_two =
    (user_login list_storage
      (user_login list_storage accounts (codes "carol") (codes "10.0.0.3") (pos 40002) (pos 8003)
        (pos 6)).0
      (codes "dave") (codes "10.0.0.3") (pos 40002) (pos 8004) (pos 6)).0

user_logout-twice_example :
    user_logout list_storage after_two (codes "10.0.0.3") (pos 40002) ≡ (after_two, logout_fail)
unfolding bytes_eq
user_logout-twice_example =
    user_logout-twice list_storage_laws accounts (codes "carol") (codes "dave") (codes "10.0.0.3")
      (pos 40002) (pos 8003) (pos 8004) (pos 6) carol dave accounts-IsValid refl refl refl refl refl
