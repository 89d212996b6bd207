-- ===== src/Protocol/Wire.antt =====
-- A request and its answer between a client and a thread of the server, over `send_P3` and `recv_P3`.
use secure_person2person_p2p.Base.{
  ℕ, ◌≤◌, ◌≡◌, ap, ◌∙◌, false, [], ◌∷◌, ◌++◌, Bytes, c_str, c_str_whole, Lacks, length, ℤ, eq_ℤ,
}
use secure_person2person_p2p.Database.Storage.{Storage}
use secure_person2person_p2p.Database.Amount.{Double}
use secure_person2person_p2p.Database.Operations.{minus_one}
use secure_person2person_p2p.Util.Rsa.{OpenSsl, IsPair, modulus, max_message}
use secure_person2person_p2p.Util.Transport.{public, take, sent, received, send_p3, recv_p3}
use secure_person2person_p2p.Util.Delivery.{recv_p3-send_p3_public, recv_p3-send_p3_private}
use secure_person2person_p2p.Process.{done}
use secure_person2person_p2p.Server.State.{World, sends, ◌>>=◌}
use secure_person2person_p2p.Server.Handler.{Peer, Receipt, reply, handle, receive}
use secure_person2person_p2p.Client.Requests.{exchange}

-- What one `recv` does with a frame: its result, how many bytes it writes, and what the buffer held.
pub record Wire : Type 0 where
  pub rcv_byte : ℤ
  pub arrived : ℕ
  pub stale : Bytes

-- At least the 256 bytes of the block arrive, without an error and in a buffer with room for them.
pub record IsWhole (wire : Wire) : Type 0 where
  pub no_error : eq_ℤ wire.rcv_byte minus_one ≡ false
  pub enough : modulus ≤ wire.arrived
  pub room : wire.arrived ≤ length wire.stale

abbrev pub receipt : Wire → Bytes → Receipt
receipt wire frame = record {
  rcv_byte = wire.rcv_byte;
  bytes = take wire.arrived frame;
  stale = wire.stale;
}

-- A text that fits one block.
pub record IsMessage (m : Bytes) : Type 0 where
  pub whole : Lacks 0 m
  pub short : length m ≤ max_message

-- The world in which one more frame was sent.
abbrev pub told : {Table : Type 0} → World Table → ℤ → Bytes → World Table
told w fd frame = record w { events = w.events ++ sends fd frame ∷ [] }

module _ {Table D Key : Type 0} (st : Storage Table) (num : Double D) {ssl : OpenSsl Key}
    {public_key private_key : Bytes} (pair : IsPair ssl public_key private_key) where
  -- A request as the server's thread receives it.
  pub receive-message :
      (m : Bytes) (wire : Wire)
      → IsMessage m
      → IsWhole wire
      → (c : Bytes) × (send_p3 ssl (c_str m) public_key public ≡ sent c)
        × ((peer : Peer) (u : Bytes) (w : World Table)
            → receive st num ssl private_key peer u (receipt wire c) w
              ≡ handle st num ssl private_key peer u wire.rcv_byte m w)
  unfolding receive
  receive-message m wire h f =
      let (c, s, e) =
        recv_p3-send_p3_public pair m wire.stale wire.arrived wire.rcv_byte h.whole h.short f.enough
          f.room in
      (
        c,
        ap (λ t. send_p3 ssl t public_key public) (c_str_whole m h.whole) ∙ s,
        λ peer u w. rw (e, receive),
      )

  -- An answer, and what whoever receives it reads.
  pub reply-message :
      (m : Bytes) (wire : Wire)
      → IsMessage m
      → IsWhole wire
      → (c : Bytes) × ((fd : ℤ) (w : World Table)
          → reply st num ssl private_key fd m w ≡ (done tt, told w fd c))
        × (recv_p3 ssl wire.rcv_byte (take wire.arrived c) wire.stale public_key public
            ≡ received wire.rcv_byte m)
  unfolding reply ◌>>=◌
  reply-message m wire h f =
      let (c, s, e) =
        recv_p3-send_p3_private pair m wire.stale wire.arrived wire.rcv_byte h.whole h.short
          f.enough f.room in
      (c, λ fd w. rw (c_str_whole m h.whole, s, reply), e)

module _ {Key : Type 0} (ssl : OpenSsl Key) (public_key : Bytes) where
  -- The client's side of the two.
  pub exchange-message :
      (m answer c c' : Bytes) (wire : Wire)
      → send_p3 ssl (c_str m) public_key public ≡ sent c
      → recv_p3 ssl wire.rcv_byte (take wire.arrived c') wire.stale public_key public
        ≡ received wire.rcv_byte answer
      → exchange ssl public_key m (receipt wire c') ≡ done (c, answer)
  unfolding exchange
  exchange-message m answer c c' wire s e = rw (s, exchange, e)
