-- ===== src/Client/Transfers.antt =====
-- A transfer between two clients: `p2p_transaction` of the one who pays and `receiving` of the other.
use secure_person2person_p2p.Base.{
  ℕ, ◌≤◌, ◌<◌, ◌≡◌, true, ltb, if◌then◌else◌, List, [], ◌∷◌, ◌++◌, Option, none, some, Bytes, codes,
  c_str, c_str_whole, Lacks, ℤ, length, arith,
}
use secure_person2person_p2p.Text.Split.{split}
use secure_person2person_p2p.Text.Split.Tokens.{IsToken, joined-Lacks, split-joined}
use secure_person2person_p2p.Text.Number.{Except, ok, throw, not_found, stoi, to_string}
use secure_person2person_p2p.Util.Rsa.{OpenSsl, IsPair, modulus, max_message}
use secure_person2person_p2p.Util.Transport.{
  Sent, sent, Received, received, public, private, take, send_p3, recv_p3,
}
use secure_person2person_p2p.Util.Delivery.{recv_p3-send_p3_public}
use secure_person2person_p2p.Process.{Result, done, threw, exited, undefined, waits}
use secure_person2person_p2p.Server.Handler.{Receipt}
use secure_person2person_p2p.Client.Peers.{find_peer_info}
use secure_person2person_p2p.Client.Requests.{transact_message, answer}
use secure_person2person_p2p.Client.Messages.{number-IsToken}

-- The port of an entry of `peer_list`. An exception of `stoi` becomes `not_found`, and the access to
-- a field that is missing is undefined.
abbrev port_or_not_found : Except ℤ → Result ℤ
port_or_not_found (ok port) = done port
port_or_not_found (throw e) = threw not_found

unfoldable pub host_port : Result (List Bytes) → Result ℤ
host_port (done (user ∷ (ip ∷ (port ∷ rest)))) = port_or_not_found (stoi port)
host_port (done (user ∷ (ip ∷ []))) = undefined
host_port (done (user ∷ [])) = undefined
host_port (done []) = undefined
host_port (threw e) = threw not_found
host_port (Result.exited n) = exited n
host_port Result.undefined = undefined
host_port Result.waits = waits

-- What the notification prints: the first two parts of the message.
abbrev notified : Bytes → List Bytes → Result (Bytes × Bytes × Bytes)
notified frame (snd ∷ (amount ∷ rest)) = done (frame, snd, amount)
notified frame (snd ∷ []) = undefined
notified frame [] = undefined

-- The calls of `strcat` on `transact_msg`, of which `stale` is what `new` finds in the memory: they
-- write behind its first NUL. Without one, or without the room, they leave the array, which is
-- undefined.
unfoldable pub append_message : Bytes → Bytes → Option Bytes
append_message stale message =
    let text = c_str stale ++ message in
    if ltb (length text) (length stale) then some text else none

-- Memory that starts with a NUL and has room for a message.
pub record IsBlank (stale : Bytes) : Type 0 where
  pub blank : c_str stale ≡ []
  pub space : max_message < length stale

append_message_blank :
    (stale message : Bytes)
    → IsBlank stale
    → length message ≤ max_message
    → append_message stale message ≡ some message
unfolding append_message
append_message_blank stale message h short =
    let e : c_str stale ≡ [] = h.blank in
    let room = h.space in
    let l : ltb (length message) (length stale) ≡ true = ground arith in rw (e, append_message, l)

module _ {Key : Type 0} (ssl : OpenSsl Key) where
  -- The message goes to the receiver, under the key that the receiver sent; the answer comes from the
  -- server.
  unfoldable pub pay : Bytes → Bytes → Bytes → Receipt → Result (Bytes × Bytes)
  pay message peer_pubkey server_pubkey r = elim (send_p3 ssl (c_str message) peer_pubkey public) [
    | Sent.sent frame ↦ answer frame (recv_p3 ssl r.rcv_byte r.bytes r.stale server_pubkey public)
    | Sent.exits ↦ exited 0
    | Sent.crashes ↦ undefined
  ]

  -- The port that is connected to, the frame that goes there, and the server's answer; `stale` is in
  -- the memory that `transact_msg` gets.
  unfoldable pub p2p_transaction :
      Bytes
      → ℤ
      → Bytes
      → Bytes
      → List (List Bytes)
      → Bytes
      → Bytes
      → Receipt
      → Result (ℤ × Bytes × Bytes)
  unfolding host_port pay append_message
  p2p_transaction sender amount receiver stale peer_list peer_pubkey server_pubkey r =
      elim (append_message stale (transact_message sender amount receiver)) [
        | none ↦ undefined
        | some message ↦ elim (host_port (find_peer_info receiver peer_list)) [
          | done port ↦ elim (pay message peer_pubkey server_pubkey r) [
            | done (frame, rcv_msg) ↦ done (port, frame, rcv_msg)
            | threw e ↦ threw e
            | exited n ↦ exited n
            | undefined ↦ undefined
            | waits ↦ waits
          ]
          | threw e ↦ threw e
          | exited n ↦ exited n
          | undefined ↦ undefined
          | waits ↦ waits
        ]
      ]

  -- A message on memory that is blank goes out as it is.
  pub p2p_transaction_lem :
      (sender receiver stale peer_pubkey server_pubkey frame msg : Bytes) (amount port : ℤ)
      (peer_list : List (List Bytes)) (r : Receipt)
      → IsBlank stale
      → length (transact_message sender amount receiver) ≤ max_message
      → host_port (find_peer_info receiver peer_list) ≡ done port
      → pay (transact_message sender amount receiver) peer_pubkey server_pubkey r
        ≡ done (frame, msg)
      → p2p_transaction sender amount receiver stale peer_list peer_pubkey server_pubkey r
        ≡ done (port, frame, msg)
  unfolding p2p_transaction
  p2p_transaction_lem sender receiver stale peer_pubkey server_pubkey frame msg amount port
        peer_list r blank short found paid =
      let e = append_message_blank stale (transact_message sender amount receiver) blank short in
      rw (e, found, paid, p2p_transaction)

  unfoldable pub relay : Bytes → Bytes → Result (Bytes × Bytes × Bytes)
  relay server_pubkey buffer = elim (send_p3 ssl (c_str buffer) server_pubkey public) [
    | Sent.sent frame ↦ notified frame (split (c_str buffer) (codes "#"))
    | Sent.exits ↦ exited 0
    | Sent.crashes ↦ undefined
  ]

  -- A round of `receiving`: what came from the peer goes on to the server.
  unfoldable pub receiving : Bytes → Bytes → Receipt → Result (Bytes × Bytes × Bytes)
  unfolding relay
  receiving private_key server_pubkey r =
      elim (recv_p3 ssl r.rcv_byte r.bytes r.stale private_key private) [
        | Received.received byte_read buffer ↦ relay server_pubkey buffer
        | Received.exits ↦ exited 0
        | Received.crashes ↦ undefined
      ]

module _ {Key : Type 0} (ssl : OpenSsl Key) (private_key server_pubkey : Bytes) where
  -- The loop of `receiving`, with what was sent on and shown so far. `none` is a failure of `accept`,
  -- at which it returns -1.
  unfoldable pub receive_all :
      List (Option Receipt) → List (Bytes × Bytes × Bytes) → Result (List (Bytes × Bytes × Bytes))
  unfolding receiving
  receive_all [] shown = waits
  receive_all (none ∷ rs) shown = done shown
  receive_all (some r ∷ rs) shown = elim (receiving ssl private_key server_pubkey r) [
    | done x ↦ receive_all rs (shown ++ x ∷ [])
    | threw e ↦ threw e
    | exited n ↦ exited n
    | undefined ↦ undefined
    | waits ↦ waits
  ]

  -- The thread ends when `receiving` has returned, as that only returns -1.
  unfoldable pub receive_thread : List (Option Receipt) → Result (List (Bytes × Bytes × Bytes))
  unfolding receive_all
  receive_thread rs = receive_all rs []

-- The parts of the message, and that it is a C string.
message-split :
    (snd rcv : Bytes) (a : ℤ)
    → IsToken b'#' snd
    → IsToken b'#' rcv
    → split (transact_message snd a rcv) (codes "#") ≡ snd ∷ (to_string a ∷ (rcv ∷ []))
message-split snd rcv a h k =
    split-joined b'#' snd (to_string a ∷ (rcv ∷ [])) (λ e. absurd (omega arith)) h
      (number-IsToken a, (k, tt))

pub message-Lacks :
    (snd rcv : Bytes) (a : ℤ)
    → IsToken b'#' snd
    → IsToken b'#' rcv
    → Lacks 0 (transact_message snd a rcv)
message-Lacks snd rcv a h k =
    joined-Lacks b'#' 0 snd (to_string a ∷ (rcv ∷ [])) (λ e. absurd (omega arith)) h.2
      ((number-IsToken a).2, (k.2, tt))

module _ {Key : Type 0} {ssl : OpenSsl Key} {peer_pubkey peer_key server_pubkey server_key : Bytes}
    (peer : IsPair ssl peer_pubkey peer_key) (server : IsPair ssl server_pubkey server_key) where
  -- For 2048-bit keys of the receiver and of the server, and names that are not empty and hold no `#`
  -- and no NUL: the message of a transfer, if it is at most 245 bytes, goes from the one who pays to
  -- the receiver and from there to the server, which reads what was sent; the receiver is told the
  -- sender and the amount. Of each frame at least 256 bytes arrive, in a buffer with room for them.
  pub receiving-transact_message :
      (snd rcv : Bytes) (a : ℤ) (stale stale' : Bytes) (k k' : ℕ) (n n' : ℤ)
      → IsToken b'#' snd
      → IsToken b'#' rcv
      → length (transact_message snd a rcv) ≤ max_message
      → modulus ≤ k
      → k ≤ length stale
      → modulus ≤ k'
      → k' ≤ length stale'
      → (c : Bytes) × (c' : Bytes) × (send_p3 ssl (transact_message snd a rcv) peer_pubkey public
          ≡ sent c)
        × (receiving ssl peer_key server_pubkey
              (record { rcv_byte = n; bytes = take k c; stale = stale })
            ≡ done (c', snd, to_string a))
        × (recv_p3 ssl n' (take k' c') stale' server_key private
            ≡ received n' (transact_message snd a rcv))
  unfolding receiving relay
  receiving-transact_message snd rcv a stale stale' k k' n n' h i short low high low' high' =
      let m = transact_message snd a rcv in
      let z = message-Lacks snd rcv a h i in
      let (c, s, e) = recv_p3-send_p3_public peer m stale k n z short low high in
      let (c', s', e') = recv_p3-send_p3_public server m stale' k' n' z short low' high' in
      (
        c,
        c',
        s,
        rw (e, receiving, c_str_whole m z, s', relay, c_str_whole m z, message-split snd rcv a h i),
        e',
      )
