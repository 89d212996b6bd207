-- ===== src/Util/Rsa.antt =====
-- The RSA calls of include/util.hpp. OpenSSL is a parameter of the model.
use secure_person2person_p2p.Base.{
  ℕ, ◌≤◌, ◌<◌, ◌≡◌, Bool, true, false, Option, none, some, if◌then◌else◌, Bytes, length, c_str,
}

-- The calls of OpenSSL: reading a key from a PEM text (`none` for a null pointer), and the four
-- operations with PKCS #1 padding (`none` for -1). They return the bytes that they write.
pub record OpenSsl (Key : Type 0) : Type 0 where
  pub pem_read_bio_rsa_pubkey : Bytes → Option Key
  pub pem_read_bio_rsa_private_key : Bytes → Option Key
  pub rsa_public_encrypt : Key → Bytes → Option Bytes
  pub rsa_private_decrypt : Key → Bytes → Option Bytes
  pub rsa_private_encrypt : Key → Bytes → Option Bytes
  pub rsa_public_decrypt : Key → Bytes → Option Bytes

-- The bytes of a 2048-bit modulus, and what the padding leaves of them for a message.
abbrev pub modulus : ℕ
modulus = 256

abbrev pub max_message : ℕ
max_message = 245

-- The documented behaviour for a pair of 2048-bit keys.
pub record IsPair {Key : Type 0} (ssl : OpenSsl Key) (public_key private_key : Bytes) : Type 0 where
  pub public_rsa : Key
  pub private_rsa : Key
  pub reads_public : ssl.pem_read_bio_rsa_pubkey (c_str public_key) ≡ some public_rsa
  pub reads_private : ssl.pem_read_bio_rsa_private_key (c_str private_key) ≡ some private_rsa
  -- A message that is too long is refused; any other becomes a block of the size of the modulus.
  pub public_too_long :
      (m : Bytes) → max_message < length m → ssl.rsa_public_encrypt public_rsa m ≡ none
  pub public_block :
      (m : Bytes)
      → length m ≤ max_message
      → (c : Bytes) × (ssl.rsa_public_encrypt public_rsa m ≡ some c)
        × (length c ≡ modulus)
        × (ssl.rsa_private_decrypt private_rsa c ≡ some m)
  pub private_too_long :
      (m : Bytes) → max_message < length m → ssl.rsa_private_encrypt private_rsa m ≡ none
  pub private_block :
      (m : Bytes)
      → length m ≤ max_message
      → (c : Bytes) × (ssl.rsa_private_encrypt private_rsa m ≡ some c)
        × (length c ≡ modulus)
        × (ssl.rsa_public_decrypt public_rsa c ≡ some m)

-- What a call of one of the wrappers comes to: the bytes written, -1, or the use of a null pointer.
pub data Coded : Type 0 where
  coded : Bytes → Coded
  failed : Coded
  crashed : Coded

abbrev pub with_key {ℓ} : {Key : Type ℓ} → Option Key → (Key → Option Bytes) → Coded
with_key none f = crashed
with_key (some rsa) f = elim (f rsa) [ none ↦ failed | some b ↦ coded b ]

module _ {Key : Type 0} (ssl : OpenSsl Key) where
  -- `key` is read up to its NUL.
  pub create_rsa : Bytes → Bool → Option Key
  create_rsa key public_key =
      if public_key
      then ssl.pem_read_bio_rsa_pubkey (c_str key)
      else ssl.pem_read_bio_rsa_private_key (c_str key)

  unfoldable pub public_encrypt : Bytes → Bytes → Coded
  unfolding create_rsa
  public_encrypt data' key =
      with_key (create_rsa key true) (λ rsa. ssl.rsa_public_encrypt rsa data')

  unfoldable pub private_decrypt : Bytes → Bytes → Coded
  unfolding create_rsa
  private_decrypt enc_data key =
      with_key (create_rsa key false) (λ rsa. ssl.rsa_private_decrypt rsa enc_data)

  unfoldable pub private_encrypt : Bytes → Bytes → Coded
  unfolding create_rsa
  private_encrypt data' key =
      with_key (create_rsa key false) (λ rsa. ssl.rsa_private_encrypt rsa data')

  unfoldable pub public_decrypt : Bytes → Bytes → Coded
  unfolding create_rsa
  public_decrypt enc_data key =
      with_key (create_rsa key true) (λ rsa. ssl.rsa_public_decrypt rsa enc_data)
