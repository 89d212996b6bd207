-- ===== src/Tests/Interleaving.antt =====
-- Two threads in a transfer at once, at small inputs.
use secure_person2person_p2p.Base.{
  ◌≡◌, refl, true, false, List, Bool, [], ◌∷◌, some, Bytes, bytes_eq, codes, pos, ◌+ℤ◌, ◌-ℤ◌, arith,
}
use secure_person2person_p2p.Database.Storage.{Row}
use secure_person2person_p2p.Database.Operations.{user_transaction, transfer_ok}
use secure_person2person_p2p.Database.Spec.{IsValid, bank}
use secure_person2person_p2p.Database.Interleaving.{starting, finished, interleave}
use secure_person2person_p2p.Database.Interleaving.Apart.{Going}
use secure_person2person_p2p.Database.Interleaving.Schedules.{interleave-user_transaction}
use secure_person2person_p2p.Database.Interleaving.Race.{overtaken, interleave_loses}
use secure_person2person_p2p.Tests.Table.{Table, list_storage, list_storage_laws}
use secure_person2person_p2p.Tests.Halves.{halves, twice, half}
use secure_person2person_p2p.Tests.Bank.{alice, bob}

abbrev erin : Row
erin = record alice { username = codes "erin" }

abbrev frank : Row
frank = record bob { username = codes "frank" }

abbrev four : Table
four = alice ∷ (bob ∷ (erin ∷ (frank ∷ [])))

four-IsValid : IsValid list_storage_laws four
unfolding bytes_eq
four-IsValid = record { synced = refl; unique = (refl, (refl, (refl, (refl, tt)))) }

alice-Going :
    Going list_storage_laws halves (codes "alice") (codes "bob") alice bob (twice (pos 700))
unfolding bytes_eq ◌-ℤ◌ ◌+ℤ◌ twice half
alice-Going = record {
  positive = refl;
  covered = refl;
  differ = refl;
  sender_online = refl;
  receiver_online = refl;
}

erin-Going :
    Going list_storage_laws halves (codes "erin") (codes "frank") erin frank (twice (pos 500))
unfolding bytes_eq ◌-ℤ◌ ◌+ℤ◌ twice half
erin-Going = record {
  positive = refl;
  covered = refl;
  differ = refl;
  sender_online = refl;
  receiver_online = refl;
}

-- The two take turns.
abbrev turns : List Bool
turns =
    true ∷ (false ∷ (true ∷ (false ∷ (true ∷ (false ∷ (true ∷ (false ∷ (true ∷ (false ∷ [])))))))))

interleave-user_transaction_example :
    let (t', p, q) =
      interleave list_storage halves turns four
        (starting (codes "alice") (codes "bob") (twice (pos 700)))
        (starting (codes "erin") (codes "frank") (twice (pos 500))) in
    let t1 =
      (user_transaction list_storage halves four
        (codes "alice")
        (codes "bob")
        (twice (pos 700))).0 in
    let t2 =
      (user_transaction list_storage halves t1
        (codes "erin")
        (codes "frank")
        (twice (pos 500))).0 in
    (p ≡ finished transfer_ok)
    × (q ≡ finished transfer_ok)
    × ((u : Bytes) → bank list_storage_laws t' u ≡ bank list_storage_laws t2 u)
unfolding bytes_eq
interleave-user_transaction_example =
    interleave-user_transaction list_storage_laws halves (codes "alice") (codes "bob") alice bob
      (twice (pos 700)) (codes "erin") (codes "frank") erin frank (twice (pos 500)) turns four
      (record { senders = refl; crossed = refl; crossed_back = refl; receivers = refl }) alice-Going
      erin-Going four-IsValid refl refl refl refl (omega arith) (omega arith)

bob-Going : Going list_storage_laws halves (codes "erin") (codes "bob") erin bob (twice (pos 500))
unfolding bytes_eq ◌-ℤ◌ ◌+ℤ◌ twice half
bob-Going = record {
  positive = refl;
  covered = refl;
  differ = refl;
  sender_online = refl;
  receiver_online = refl;
}

-- `erin` pays 500 to `bob`, who has 8700 in the end and not 9200.
interleave_loses_example :
    let (t', p, q) =
      interleave list_storage halves overtaken four
        (starting (codes "alice") (codes "bob") (twice (pos 700)))
        (starting (codes "erin") (codes "bob") (twice (pos 500))) in
    (p ≡ finished transfer_ok)
    × (q ≡ finished transfer_ok)
    × (bank list_storage_laws t' (codes "alice") ≡ some (record alice { balance = pos 11300 }))
    × (bank list_storage_laws t' (codes "erin") ≡ some (record erin { balance = pos 11500 }))
    × (bank list_storage_laws t' (codes "bob") ≡ some (record bob { balance = pos 8700 }))
unfolding bytes_eq ◌-ℤ◌ ◌+ℤ◌ twice half
interleave_loses_example =
    interleave_loses list_storage_laws halves (codes "alice") (codes "erin") (codes "bob") alice
      erin bob (twice (pos 700)) (twice (pos 500)) four alice-Going bob-Going refl four-IsValid refl
      refl refl
