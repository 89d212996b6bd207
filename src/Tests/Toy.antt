-- ===== src/Tests/Toy.antt =====
-- A cipher that only pads: the assumptions on OpenSSL can be met, with one key for both parts.
use secure_person2person_p2p.Base.{
  ℕ, suc, ◌-◌, ◌≤◌, ◌<◌, ◌≡◌, ◌≢◌, refl, ap, [], ◌∷◌, ◌++◌, Option, none, some, if◌then◌else◌,
  Bytes, codes, length, length-append, pos, arith, ltb,
}
use secure_person2person_p2p.Util.Rsa.{OpenSsl, IsPair, modulus, max_message}
use secure_person2person_p2p.Util.Transport.{
  public, private, take, replicate, take-append, length-replicate, Sent, sent, received,
  buffer_size, send_p3, recv_p3,
}
use secure_person2person_p2p.Util.Delivery.{recv_p3-send_p3_public, send_p3_too_long}

-- The length of the message, the message, and zeros up to the size of the modulus.
abbrev pub block : Bytes → Bytes
block m = length m ∷ (m ++ replicate (255 - length m) 0)

unfoldable pub pad : Bytes → Option Bytes
pad m = if ltb max_message (length m) then none else some (block m)

unfoldable pub unpad : Bytes → Option Bytes
unpad [] = none
unpad (n ∷ c) = some (take n c)

abbrev pub toy : OpenSsl (Unit {0})
toy = record {
  pem_read_bio_rsa_pubkey = λ _. some tt;
  pem_read_bio_rsa_private_key = λ _. some tt;
  rsa_public_encrypt = λ _ m. pad m;
  rsa_private_decrypt = λ _ c. unpad c;
  rsa_private_encrypt = λ _ m. pad m;
  rsa_public_decrypt = λ _ c. unpad c;
}

pad_too_long : (m : Bytes) → max_message < length m → pad m ≡ none
unfolding pad
pad_too_long m h = ground arith

pad_block :
    (m : Bytes)
    → length m ≤ max_message
    → (c : Bytes) × (pad m ≡ some c) × (length c ≡ modulus) × (unpad c ≡ some m)
unfolding pad unpad
pad_block m h = (
  block m,
  ground arith,
  omega
      (arith, length-append m (replicate (255 - length m) 0), length-replicate (255 - length m) 0),
  ap some (take-append m _ (length m) refl),
)

pub toy-IsPair : IsPair toy (codes "public") (codes "private")
toy-IsPair = record {
  public_rsa = tt;
  private_rsa = tt;
  reads_public = refl;
  reads_private = refl;
  public_too_long = pad_too_long;
  public_block = pad_block;
  private_too_long = pad_too_long;
  private_block = pad_block;
}

-- The whole frame arrives in a buffer that held something else.
recv_p3-send_p3_public_example :
    (c : Bytes) × (send_p3 toy (codes "List") (codes "public") public ≡ sent c)
    × (recv_p3 toy (pos 256) (take 256 c) (replicate buffer_size 7) (codes "private") private
        ≡ received (pos 256) (codes "List"))
recv_p3-send_p3_public_example =
    recv_p3-send_p3_public toy-IsPair (codes "List") (replicate buffer_size 7) 256 (pos 256)
      (no_nul, (no_nul, (no_nul, (no_nul, tt)))) (omega arith) (omega arith)
      (omega (arith, length-replicate buffer_size 7))
  where
    no_nul : {n : ℕ} → suc n ≢ 0
    no_nul e = absurd (omega arith)

send_p3_too_long_example :
    (send_p3 toy (replicate 246 b'a') (codes "public") public ≡ Sent.exits)
    × (send_p3 toy (replicate 246 b'a') (codes "private") private ≡ Sent.exits)
send_p3_too_long_example =
    send_p3_too_long toy-IsPair (replicate 246 b'a') (omega (arith, length-replicate 246 b'a'))
