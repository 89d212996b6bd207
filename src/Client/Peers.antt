-- ===== src/Client/Peers.antt =====
-- The list of the users who are online, as the client keeps it: `parse_list_info` and
-- `find_peer_info` of src/client.cpp.
use secure_person2person_p2p.Base.{
  ℕ, zero, suc, List, [], ◌∷◌, ◌++◌, if◌then◌else◌, Bytes, bytes_eq, codes, c_str, ℤ, pos_part,
}
use secure_person2person_p2p.Text.Split.{split}
use secure_person2person_p2p.Text.Number.{Except, ok, throw, not_found, stoi}
use secure_person2person_p2p.Process.{Result, done, threw, undefined, waits}

-- `acct_balance`, `online_num` and `peer_list`.
pub record Known : Type 0 where
  pub acct_balance : ℤ
  pub online_num : ℤ
  pub peer_list : List (List Bytes)

-- The loop over the lines; one that is missing is an access behind the end of a vector.
unfoldable pub read_peers : ℕ → List Bytes → List (List Bytes) → Result (List (List Bytes))
read_peers zero lines peer_list = done peer_list
read_peers (suc n) [] peer_list = undefined
read_peers (suc n) (line ∷ lines) peer_list =
    read_peers n lines (peer_list ++ split line (codes "#") ∷ [])

abbrev pub known : ℤ → ℤ → Result (List (List Bytes)) → Result Known
known balance num (done peers) =
    done (record { acct_balance = balance; online_num = num; peer_list = peers })
known balance num (threw e) = threw e
known balance num (Result.exited n) = Result.exited n
known balance num undefined = undefined
known balance num waits = waits

abbrev pub with_int {ℓ} : {A : Type ℓ} → Except ℤ → (ℤ → Result A) → Result A
with_int (ok n) k = k n
with_int (throw e) k = threw e

-- The lines are the balance, the number of users who are online, and a line for each of them.
unfoldable pub read_info : List Bytes → Result Known
unfolding read_peers
read_info [] = undefined
read_info (balance ∷ []) = with_int (stoi balance) (λ b. undefined)
read_info (balance ∷ (num ∷ lines)) =
    with_int (stoi balance)
      (λ b. with_int (stoi num) (λ n. known b n (read_peers (pos_part n) lines [])))

unfoldable pub parse_list_info : Bytes → Result Known
unfolding read_info
parse_list_info msg = read_info (split (c_str msg) (codes "\n"))

-- `peer_list[i][0]` of an entry without a name is an access behind the end of a vector.
unfoldable pub find_peer_info : Bytes → List (List Bytes) → Result (List Bytes)
find_peer_info name [] = threw not_found
find_peer_info name ([] ∷ peers) = undefined
find_peer_info name ((user ∷ info) ∷ peers) =
    if bytes_eq (c_str name) (c_str user) then done (user ∷ info) else find_peer_info name peers
