-- ===== src/Database/Operations.antt =====
-- The operations of `class Database`. Each returns the table that it leaves, and its status.
use secure_person2person_p2p.Base.{
  ℕ, Bool, true, ◌&&◌, ◌||◌, List, [], ◌∷◌, ◌++◌, Option, none, some, leb, ◌==◌, if◌then◌else◌,
  length, Bytes, bytes_eq, codes, ℤ, pos, negsuc, eq_ℤ,
}
use secure_person2person_p2p.Text.Number.{to_string}
use secure_person2person_p2p.Database.Storage.{Client, Row, Storage}
use secure_person2person_p2p.Database.Amount.{Double}

-- The status codes of include/Database.hpp.
abbrev pub register_ok : ℤ
register_ok = pos 100

abbrev pub register_fail : ℤ
register_fail = pos 210

abbrev pub login_success : ℤ
login_success = pos 110

abbrev pub login_auth_fail : ℤ
login_auth_fail = pos 220

abbrev pub login_exist : ℤ
login_exist = pos 230

abbrev pub logout_success : ℤ
logout_success = pos 120

abbrev pub logout_fail : ℤ
logout_fail = pos 250

abbrev pub transfer_ok : ℤ
transfer_ok = pos 130

abbrev pub transfer_fail : ℤ
transfer_fail = pos 260

abbrev pub transfer_sender_bankrupt : ℤ
transfer_sender_bankrupt = pos 270

abbrev pub transfer_self_fail : ℤ
transfer_self_fail = pos 280

abbrev pub query_error : ℤ
query_error = pos 400

abbrev pub initial_balance : ℤ
initial_balance = pos 10000

abbrev pub minus_one : ℤ
minus_one = negsuc 0

-- The row of a user who registers.
abbrev pub new_user : Bytes → Client
new_user username = record {
  username = username;
  ip = [];
  public_port = minus_one;
  private_port = minus_one;
  online_status = pos 0;
  balance = initial_balance;
  fd = minus_one;
}

-- What a login and a logout write into the row of the user.
abbrev pub logged_in : Client → Bytes → ℤ → ℤ → ℤ → Client
logged_in user ip public_port private_port fd = record user {
  ip = ip;
  public_port = public_port;
  private_port = private_port;
  online_status = pos 1;
  fd = fd;
}

abbrev pub logged_out : Client → Client
logged_out user = record user {
  ip = [];
  public_port = minus_one;
  private_port = minus_one;
  online_status = pos 0;
  fd = minus_one;
}

-- The tests of the queries.
abbrev pub named : Bytes → Row → Bool
named username r = bytes_eq r.username username

abbrev pub is_online : Row → Bool
is_online r = eq_ℤ r.online_status (pos 1)

abbrev pub connected_from : Bytes → ℤ → Row → Bool
connected_from ip public_port r =
    bytes_eq r.ip ip && (eq_ℤ r.public_port public_port && is_online r)

-- One line of the list of users.
abbrev pub user_line : Client → Bytes
user_line user =
    user.username
    ++ (codes "#" ++ (user.ip ++ (codes "#" ++ (to_string user.private_port ++ codes "\n"))))

-- The loop of `user_list_info`.
unfoldable pub list_info : List Client → Bytes
list_info [] = []
list_info (user ∷ users) = user_line user ++ list_info users

-- `user_list_info(vector<Client>)`
unfoldable pub user_list_info_of : List Client → Bytes
unfolding list_info
user_list_info_of [] = codes "Online num:0"
user_list_info_of (user ∷ users) = list_info (user ∷ users)

module _ {Table : Type 0} (st : Storage Table) where
  -- The constructor's part after the table is there: with `reset` every row is removed.
  unfoldable pub initialise : Table → Bool → Table
  initialise t reset = if reset then st.remove_all (st.sync_schema t) else t

  unfoldable pub user_register : Table → Bytes → Bytes → Table × ℤ
  user_register t username ip =
      let storage = st.sync_schema t in
      let check_user = st.get_all (named username) storage in
      if leb 1 (length check_user)
      then (storage, register_fail)
      else (st.replace (new_user username) storage, register_ok)

  unfoldable pub user_login : Table → Bytes → Bytes → ℤ → ℤ → ℤ → Table × ℤ
  user_login t username ip public_port private_port fd =
      let storage = st.sync_schema t in
      elim (st.get_all (named username) storage) [
        | [] ↦ (storage, login_auth_fail)
        | user ∷ _ ↦
            let check_online = st.get_all (λ r. named username r && is_online r) storage in
            if length check_online == 1
            then (storage, login_exist)
            else (st.update (logged_in user ip public_port private_port fd) storage, login_success)
      ]

  unfoldable pub user_logout : Table → Bytes → ℤ → Table × ℤ
  user_logout t ip public_port =
      let storage = st.sync_schema t in
      elim (st.get_all (connected_from ip public_port) storage) [
        | [] ↦ (storage, logout_fail)
        | user ∷ [] ↦ (st.update (logged_out user) storage, logout_success)
        | _ ∷ (_ ∷ _) ↦ (storage, logout_fail)
      ]

  -- `none` stands for the access to element 0 of an empty vector.
  unfoldable pub user_info : Table → Bytes → Table × Option Client
  user_info t username =
      let storage = st.sync_schema t in
      elim (st.get_all (named username) storage) [
        | [] ↦ (storage, none)
        | user ∷ _ ↦ (storage, some user)
      ]

  unfoldable pub list : Table → Bool → Table × List Client
  list t online =
      let storage = st.sync_schema t in
      if online
      then (storage, st.get_all is_online storage)
      else (storage, st.get_all (λ _. true) storage)

  unfoldable pub user_num : Table → Bool → Table × ℕ
  unfolding list
  user_num t online = let (storage, users) = list t online in (storage, length users)

  unfoldable pub user_list_info : Table → Table × Bytes
  unfolding list list_info
  user_list_info t = let (storage, online_users) = list t true in (storage, list_info online_users)

  module _ {D : Type 0} (num : Double D) where
    -- `sender.balance -= pay` and `receiver.balance += pay`
    abbrev pub debited : Client → D → Client
    debited sender pay = record sender {
      balance = num.to_int (num.sub (num.of_int sender.balance) pay);
    }

    abbrev pub credited : Client → D → Client
    credited receiver pay = record receiver {
      balance = num.to_int (num.add (num.of_int receiver.balance) pay);
    }

    -- A transfer between the two users that were found.
    unfoldable pub move_balance : Table → Client → Client → D → Table × ℤ
    move_balance storage sender receiver pay =
        if num.ltb (num.sub (num.of_int sender.balance) pay) (num.of_int (pos 0))
        then (storage, transfer_sender_bankrupt)
        else (
          st.update (credited receiver pay) (st.update (debited sender pay) storage),
          transfer_ok,
        )

    unfoldable pub user_transaction : Table → Bytes → Bytes → D → Table × ℤ
    unfolding move_balance
    user_transaction t snd rcv pay =
        let storage = st.sync_schema t in
        if num.leb pay (num.of_int (pos 0)) || bytes_eq snd rcv
        then if bytes_eq snd rcv then (storage, transfer_self_fail) else (storage, transfer_fail)
        else elim (st.get_all (λ r. named snd r && is_online r) storage) [
          | [] ↦ (storage, transfer_fail)
          | sender ∷ [] ↦ elim (st.get_all (λ r. named rcv r && is_online r) storage) [
            | [] ↦ (storage, transfer_fail)
            | receiver ∷ [] ↦ move_balance storage sender receiver pay
            | _ ∷ (_ ∷ _) ↦ (storage, transfer_fail)
          ]
          | _ ∷ (_ ∷ _) ↦ (storage, transfer_fail)
        ]
