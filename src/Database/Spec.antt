-- ===== src/Database/Spec.antt =====
-- What the database promises: a map from names to accounts, and the effect of each call on it.
use secure_person2person_p2p.Base.{
  ◌≡◌, true, [], Option, none, some, if◌then◌else◌, Bytes, bytes_eq, ℤ, pos,
}
use secure_person2person_p2p.Database.Storage.{Row, Storage, IsStorage}
use secure_person2person_p2p.Database.Amount.{Double}
use secure_person2person_p2p.Database.Operations.{
  register_ok, register_fail, login_success, login_auth_fail, login_exist, transfer_ok,
  transfer_fail, transfer_sender_bankrupt, transfer_self_fail, initial_balance, minus_one,
  is_online,
}
use secure_person2person_p2p.Database.Rows.{find, IsUnique}

abbrev pub Bank : Type 0
Bank = Bytes → Option Row

-- The bank in which one account is another.
abbrev pub assign : Bank → Bytes → Row → Bank
assign b u r v = if bytes_eq u v then some r else b v

-- An account as it is opened.
abbrev pub new_account : Bytes → Row
new_account u = record {
  username = u;
  ip = [];
  public_port = minus_one;
  private_port = minus_one;
  online_status = pos 0;
  balance = initial_balance;
}

unfoldable pub register : Bank → Bytes → Bank × ℤ
register b u = elim (b u) [
  | none ↦ (assign b u (new_account u), register_ok)
  | some _ ↦ (b, register_fail)
]

unfoldable pub login : Bank → Bytes → Bytes → ℤ → ℤ → Bank × ℤ
login b u ip public_port private_port = elim (b u) [
  | none ↦ (b, login_auth_fail)
  | some r ↦ if is_online r then (b, login_exist) else (
    assign b u (record r {
      ip = ip;
      public_port = public_port;
      private_port = private_port;
      online_status = pos 1;
    }),
    login_success,
  )
]

-- The account of a user who is logged in.
abbrev pub online : Option Row → Option Row
online none = none
online (some r) = if is_online r then some r else none

module _ {D : Type 0} (num : Double D) where
  unfoldable pub pay_out : Bank → Bytes → Bytes → Row → Row → D → Bank × ℤ
  pay_out b snd rcv s r pay =
      let left = num.sub (num.of_int s.balance) pay in
      if num.ltb left (num.of_int (pos 0)) then (b, transfer_sender_bankrupt) else (
        assign (assign b snd (record s { balance = num.to_int left })) rcv
            (record r { balance = num.to_int (num.add (num.of_int r.balance) pay) }),
        transfer_ok,
      )

  unfoldable pub transaction : Bank → Bytes → Bytes → D → Bank × ℤ
  unfolding pay_out
  transaction b snd rcv pay =
      if bytes_eq snd rcv
      then (b, transfer_self_fail)
      else if num.leb pay (num.of_int (pos 0))
      then (b, transfer_fail)
      else elim (online (b snd)) [
        | none ↦ (b, transfer_fail)
        | some s ↦ elim (online (b rcv)) [
          | none ↦ (b, transfer_fail)
          | some r ↦ pay_out b snd rcv s r pay
        ]
      ]

-- A table that fits the mapping and in which no name stands twice.
module _ {Table : Type 0} {st : Storage Table} (law : IsStorage st) where
  pub record IsValid (t : Table) : Type 0 where
    pub synced : law.is_synced t ≡ true
    pub unique : IsUnique (law.rows t)

  -- The accounts of a table.
  abbrev pub bank : Table → Bank
  bank t u = find u (law.rows t)

-- Two pairs of a bank and a status agree.
abbrev pub Agrees : Bank × ℤ → Bank × ℤ → Type 0
Agrees (b, s) (c, q) = (s ≡ q) × ((u : Bytes) → b u ≡ c u)
