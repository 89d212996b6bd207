-- ===== src/Util/Tls.antt =====
-- The SSL functions of include/util.hpp: `SSL_read_D`, `SSL_write_E`, `LoadCertificates`, `ShowCerts`
-- and `printLastError`. Nothing in the repository calls them. The calls of OpenSSL are parameters, and
-- what goes to stderr is left out.
pub mod Delivery
use mathlib.Core.Option
use secure_person2person_p2p.Base.{
  ℕ, ◌+◌, Bool, [], ◌∷◌, ◌++◌, Option, none, some, ◌==◌, if◌then◌else◌, Bytes, codes, ℤ,
}
use secure_person2person_p2p.Process.Console.{Io, pure, exit, print, or_undefined, ◌>>=◌, ◌>>◌}
use secure_person2person_p2p.Util.Rsa.{OpenSsl, modulus}
use secure_person2person_p2p.Util.Transport.{take, replicate, overlay}

-- The text in an array, which ends at the first NUL; without one `strlen` reads behind the array.
unfoldable pub text_in : Bytes → Option Bytes
text_in [] = none
text_in (c ∷ s) = let text = Option.map (λ t. c ∷ t) (text_in s) in if c == 0 then some [] else text

-- The status that the shell gives for `abort`.
abbrev pub aborted : ℕ
aborted = 134

unfoldable pub load_certificates : Bool → Bool → Bool → Io (Unit {0})
load_certificates certificate_ok key_ok keys_match = do
  if certificate_ok then pure tt else exit aborted
  if key_ok then pure tt else exit aborted
  if keys_match then pure tt else exit aborted

-- The certificate's subject and issuer, if the peer has one.
unfoldable pub show_certs : Option (Bytes × Bytes) → Io (Unit {0})
show_certs (some (subject, issuer)) = do
  print (codes "Digital certificate information:\n")
  print (codes "Certificate: " ++ (subject ++ codes "\n"))
  print (codes "Issuer: " ++ (issuer ++ codes "\n"))
show_certs none = print (codes "No certificate information.\n")

unfoldable pub print_last_error : Bytes → Bytes → Io (Unit {0})
print_last_error msg err = print (msg ++ (codes " ERROR: " ++ (err ++ codes "\n")))

module _ {Key : Type 0} (ssl : OpenSsl Key) where
  abbrev pub decrypted_into : Bytes → Option Bytes → Io Bytes
  decrypted_into plaintext (some m) = pure (overlay m plaintext)
  decrypted_into plaintext none = print (codes "decrypt error\n") >> pure plaintext

  -- `bytes` is what `SSL_read` wrote into the buffer, which held `stale`; `plaintext` is what the array
  -- of the size of the modulus and one more held. Both are not initialised.
  unfoldable pub ssl_read_d : Key → ℤ → Bytes → Bytes → Bytes → Bool → Io (ℤ × Bytes)
  unfolding text_in
  ssl_read_d rsa_key tmp_byte_read bytes stale plaintext verbose = do
    shown ← if verbose then or_undefined (text_in (overlay bytes stale)) else pure []
    print (
        if verbose
        then codes "\n[System Info] Encrypted message received - <" ++ (shown ++ codes ">\n")
        else [])
    filled ←
        decrypted_into plaintext
          (ssl.rsa_public_decrypt rsa_key (take modulus (overlay bytes stale)))
    decrypted ← or_undefined (text_in filled)
    pure (tmp_byte_read, decrypted)

  abbrev pub encrypted_into : Bytes → Option Bytes → Io Bytes
  encrypted_into ciphertext (some c) = pure (overlay c ciphertext)
  encrypted_into ciphertext none = print (codes "encrypt error\n") >> pure ciphertext

  abbrev pub private_key_of : Option Bytes → Option Key
  private_key_of none = none
  private_key_of (some content) = ssl.pem_read_bio_rsa_private_key content

  -- The bytes for `SSL_write`. A key file that cannot be opened or read is a null pointer.
  unfoldable pub ssl_write_e : Option Bytes → Bytes → Io Bytes
  ssl_write_e key_file response = do
    p_key ← or_undefined (private_key_of key_file)
    encrypted_into (replicate (modulus + 1) 0) (ssl.rsa_private_encrypt p_key (response ++ 0 ∷ []))
