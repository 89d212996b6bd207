-- ===== src/Util/Delivery.antt =====
-- What `recv_P3` makes of what `send_P3` sent.
use secure_person2person_p2p.Base.{
  ℕ, length-append, ◌≤◌, ◌<◌, ◌≡◌, ap, ◌∙◌, Bytes, length, c_str, Lacks, ℤ, arith, ◌++◌, some,
}
use secure_person2person_p2p.Util.Rsa.{
  OpenSsl, IsPair, coded, with_key, modulus, max_message, public_encrypt, private_decrypt,
  private_encrypt, public_decrypt,
}
use secure_person2person_p2p.Util.Transport.{
  public, private, take, drop, buffer_size, overlay, zeros, Sent, sent, received, frame, text,
  send_p3, recv_p3, overlay-append, take-append, take-overlay, length-replicate, c_str-append,
  drop-replicate,
}

length-zeros : length zeros ≡ buffer_size
unfolding zeros
length-zeros = length-replicate buffer_size 0

-- A text that fits the buffer is read back from it.
c_str-overlay : (m : Bytes) → Lacks 0 m → length m < buffer_size → c_str (overlay m zeros) ≡ m
unfolding zeros
c_str-overlay m h fits =
    let (rest, e) = drop-replicate (length m) buffer_size fits in
    ap c_str (overlay-append m zeros (omega (arith, length-zeros)) ∙ ap (λ r. m ++ r) e)
    ∙ c_str-append m rest h

room : (c : Bytes) → length c ≡ modulus → modulus ≤ length (overlay c zeros)
room c e = omega (
  arith,
  ap (length {0}) (overlay-append c zeros (omega (arith, length-zeros))),
  length-append c (drop (length c) zeros),
)

-- The block that was sent is what 256 bytes of the receiver's buffer hold.
block-overlay :
    (c stale : Bytes) (k : ℕ)
    → length c ≡ modulus
    → modulus ≤ k
    → k ≤ length stale
    → take modulus (overlay (take k (overlay c zeros)) stale) ≡ c
block-overlay c stale k e low high =
    take-overlay modulus k (overlay c zeros) stale low (room c e) high
    ∙ ap (take modulus) (overlay-append c zeros (omega (arith, length-zeros)))
    ∙ take-append c _ modulus e

module _ {Key : Type 0} {ssl : OpenSsl Key} {public_key private_key : Bytes}
    (pair : IsPair ssl public_key private_key) where
  pub encrypt_public :
      (m c : Bytes)
      → ssl.rsa_public_encrypt pair.public_rsa m ≡ some c
      → public_encrypt ssl m public_key ≡ coded c
  unfolding public_encrypt
  encrypt_public m c e = rw (pair.reads_public, with_key, e)

  decrypt_private :
      (m c : Bytes)
      → ssl.rsa_private_decrypt pair.private_rsa c ≡ some m
      → private_decrypt ssl c private_key ≡ coded m
  unfolding private_decrypt
  decrypt_private m c e = rw (pair.reads_private, with_key, e)

  encrypt_private :
      (m c : Bytes)
      → ssl.rsa_private_encrypt pair.private_rsa m ≡ some c
      → private_encrypt ssl m private_key ≡ coded c
  unfolding private_encrypt
  encrypt_private m c e = rw (pair.reads_private, with_key, e)

  decrypt_public :
      (m c : Bytes)
      → ssl.rsa_public_decrypt pair.public_rsa c ≡ some m
      → public_decrypt ssl c public_key ≡ coded m
  unfolding public_decrypt
  decrypt_public m c e = rw (pair.reads_public, with_key, e)

  -- For a pair of 2048-bit keys: a text of at most 245 bytes with no NUL that is sent under the
  -- public key is received under the private key, however much of the frame arrives beyond its first
  -- 256 bytes and whatever the receiver's buffer held before, if it has room for what arrives.
  pub recv_p3-send_p3_public :
      (m stale : Bytes) (k : ℕ) (n : ℤ)
      → Lacks 0 m
      → length m ≤ max_message
      → modulus ≤ k
      → k ≤ length stale
      → (c : Bytes) × (send_p3 ssl m public_key public ≡ sent c)
        × (recv_p3 ssl n (take k c) stale private_key private ≡ received n m)
  unfolding send_p3 recv_p3
  recv_p3-send_p3_public m stale k n h fits low high =
      let (c, e, size, back) = pair.public_block m fits in
      (
        overlay c zeros,
        ap frame (encrypt_public m c e),
        ap (λ b. text n (private_decrypt ssl b private_key)) (block-overlay c stale k size low high)
            ∙ ap (text n) (decrypt_private m c back)
            ∙ ap (received n) (c_str-overlay m h (omega arith)),
      )

  -- For a pair of 2048-bit keys: a text of at most 245 bytes with no NUL that is sent under the
  -- private key is received under the public key, however much of the frame arrives beyond its first
  -- 256 bytes and whatever the receiver's buffer held before, if it has room for what arrives.
  pub recv_p3-send_p3_private :
      (m stale : Bytes) (k : ℕ) (n : ℤ)
      → Lacks 0 m
      → length m ≤ max_message
      → modulus ≤ k
      → k ≤ length stale
      → (c : Bytes) × (send_p3 ssl m private_key private ≡ sent c)
        × (recv_p3 ssl n (take k c) stale public_key public ≡ received n m)
  unfolding send_p3 recv_p3
  recv_p3-send_p3_private m stale k n h fits low high =
      let (c, e, size, back) = pair.private_block m fits in
      (
        overlay c zeros,
        ap frame (encrypt_private m c e),
        ap (λ b. text n (public_decrypt ssl b public_key)) (block-overlay c stale k size low high)
            ∙ ap (text n) (decrypt_public m c back)
            ∙ ap (received n) (c_str-overlay m h (omega arith)),
      )

  -- For a pair of 2048-bit keys: a text of more than 245 bytes ends the process that sends it, under
  -- either key.
  pub send_p3_too_long :
      (m : Bytes)
      → max_message < length m
      → (send_p3 ssl m public_key public ≡ Sent.exits)
        × (send_p3 ssl m private_key private ≡ Sent.exits)
  unfolding send_p3 public_encrypt private_encrypt
  send_p3_too_long m h = (
    rw (pair.reads_public, with_key, pair.public_too_long m h),
    rw (pair.reads_private, with_key, pair.private_too_long m h),
  )
