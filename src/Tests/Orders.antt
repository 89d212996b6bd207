-- ===== src/Tests/Orders.antt =====
-- Two transfers in either order, and one that is refused, at small inputs.
use secure_person2person_p2p.Base.{
  ◌≡◌, refl, codes, bytes_eq, pos, ◌+ℤ◌, ◌-ℤ◌, arith, Bytes, List, [], ◌∷◌,
}
use secure_person2person_p2p.Database.Operations.{user_transaction, transfer_ok}
use secure_person2person_p2p.Database.Spec.{bank, assign}
use secure_person2person_p2p.Tests.Table.{list_storage, list_storage_laws, Table}
use secure_person2person_p2p.Tests.Halves.{halves, halves_laws, twice}
use secure_person2person_p2p.Database.Commuting.{user_transaction-user_transaction}
use secure_person2person_p2p.Tests.Bank.{alice, bob, accounts, accounts-IsSound}
use secure_person2person_p2p.Database.Spec

-- `alice` and `bob` pay each other.
user_transaction-user_transaction_example :
    let (t1, q1) =
      user_transaction list_storage halves accounts
        (codes "alice")
        (codes "bob")
        (twice (pos 700)) in
    let (t2, q2) =
      user_transaction list_storage halves t1 (codes "bob") (codes "alice") (twice (pos 500)) in
    let (t3, q3) =
      user_transaction list_storage halves accounts
        (codes "bob")
        (codes "alice")
        (twice (pos 500)) in
    let (t4, q4) =
      user_transaction list_storage halves t3 (codes "alice") (codes "bob") (twice (pos 700)) in
    (q1 ≡ transfer_ok)
    × (q2 ≡ transfer_ok)
    × (q3 ≡ transfer_ok)
    × (q4 ≡ transfer_ok)
    × ((u : Bytes) → bank list_storage_laws t2 u ≡ bank list_storage_laws t4 u)
unfolding bytes_eq ◌+ℤ◌ ◌-ℤ◌
user_transaction-user_transaction_example =
    user_transaction-user_transaction list_storage_laws halves_laws accounts (codes "alice")
      (codes "bob") (codes "bob") (codes "alice") (pos 700) (pos 500) alice bob bob alice
      accounts-IsSound (omega arith) (omega arith) (omega arith) refl refl refl refl refl refl
      (omega arith) (omega arith) (omega arith) (omega arith) (omega arith) (omega arith)

-- `alice` still has `carol` in her list, who has logged out.
abbrev stale_peers : List (List Bytes)
stale_peers = (codes "carol" ∷ (codes "10.0.0.3" ∷ (codes "8003" ∷ []))) ∷ []
