-- ===== src/Client/Refresh.antt =====
-- A request of the list, from the client to the server and back.
use secure_person2person_p2p.Base.{
  ℕ, ◌≡◌, ◌≢◌, ◌≤◌, refl, ap, inr, false, List, [], ◌∷◌, ◌++◌, map, All, Bytes, bytes_eq, codes,
  c_str, Lacks, ℤ, pos, length, InInt, int_max, arith,
}
use secure_person2person_p2p.Text.Number.{to_string}
use secure_person2person_p2p.Text.Number.Decimal.{to_string-Lacks, to_string-ne-nil}
use secure_person2person_p2p.Database.Storage.{Client}
use secure_person2person_p2p.Database.Operations.{list_info}
use secure_person2person_p2p.Util.Rsa.{OpenSsl, IsPair, modulus, max_message}
use secure_person2person_p2p.Util.Transport.{
  public, private, take, sent, send_p3, frame, overlay, zeros,
}
use secure_person2person_p2p.Util.Delivery.{encrypt_public, recv_p3-send_p3_private}
use secure_person2person_p2p.Process.{done}
use secure_person2person_p2p.Server.Handler.{info_response}
use secure_person2person_p2p.Client.Peers.{Known}
use secure_person2person_p2p.Client.Requests.{exchange, list_message, renew, request_list}
use secure_person2person_p2p.Client.Lists.{
  IsListed, peer, response-Lacks, parse_list_info-info_response,
}

-- A text that begins with a number is not the refusal of the server.
starts :
    (s rest : Bytes)
    → s ≢ []
    → Lacks b'P' s
    → bytes_eq (s ++ rest) (codes "Please login first\n") ≡ false
unfolding bytes_eq
starts [] rest h k = absurd (h refl)
starts (c ∷ s) rest h k = ground (arith, k.0)

pub not_refused :
    (user : Client) (n : ℕ) (users : Bytes)
    → bytes_eq (info_response user n users) (codes "Please login first\n") ≡ false
not_refused user n users =
    starts (to_string user.balance) _ (to_string-ne-nil user.balance)
      (to_string-Lacks b'P' user.balance (λ e. absurd (omega arith)) (inr (omega arith)))

module _ {Key : Type 0} {ssl : OpenSsl Key} {public_key private_key : Bytes}
    (pair : IsPair ssl public_key private_key) where
  -- The request itself is always sent.
  list_sent : (c : Bytes) × (send_p3 ssl (c_str list_message) public_key public ≡ sent c)
  unfolding send_p3 c_str
  list_sent =
      let (c, e, _, _) = pair.public_block (c_str list_message) (omega arith) in
      (overlay c zeros, ap frame (encrypt_public pair (c_str list_message) c e))

  -- For a pair of 2048-bit keys: the server's answer to a request of the list is at most 245 bytes,
  -- its numbers are `int`s, and the users' names and addresses are not empty and hold no `#`, no
  -- newline and no NUL. However much of the answer's frame arrives beyond 256 bytes, the request
  -- ends, and the client then knows the balance, the number of users, and the name, address and port
  -- of each, whatever it knew before.
  pub request_list-reply :
      (before : Known) (user : Client) (us : List Client) (stale : Bytes) (k : ℕ) (n : ℤ)
      → InInt user.balance
      → length us ≤ int_max
      → All IsListed us
      → length (info_response user (length us) (list_info us)) ≤ max_message
      → modulus ≤ k
      → k ≤ length stale
      → (c : Bytes) × (send_p3 ssl
            (info_response user (length us) (list_info us))
            private_key
            private
          ≡ sent c)
        × (request_list ssl public_key before
              (record { rcv_byte = n; bytes = take k c; stale = stale })
            ≡ done (record {
              acct_balance = user.balance;
              online_num = pos (length us);
              peer_list = map peer us;
            }))
  unfolding request_list exchange renew
  request_list-reply before user us stale k n i fits h short low high =
      let response = info_response user (length us) (list_info us) in
      let (request, r) = list_sent in
      let (c, s, e) =
        recv_p3-send_p3_private pair response stale k n (response-Lacks user us h) short low high in
      (
        c,
        s,
        rw (r, exchange, e, request_list, renew, not_refused user (length us) (list_info us))
            (parse_list_info-info_response user us i fits h),
      )
