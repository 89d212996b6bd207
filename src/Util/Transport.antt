-- ===== src/Util/Transport.antt =====
-- `send_P3` and `recv_P3` of include/util.hpp.
use secure_person2person_p2p.Base.{
  ℕ, zero, suc, ◌≤◌, ◌<◌, ◌≡◌, refl, ap, List, [], ◌∷◌, ◌++◌, Bytes, length, c_str, Lacks, ℤ, arith,
}
use secure_person2person_p2p.Util.Rsa.{
  OpenSsl, Coded, coded, failed, crashed, modulus, public_encrypt, private_decrypt, private_encrypt,
  public_decrypt,
}

-- The two options, `_PUBLIC` and `_PRIVATE`; any other leaves the text alone.
pub data KeyOption : Type 0 where
  public private other : KeyOption

module _ {ℓ} {A : Type ℓ} where
  abbrev pub take : ℕ → List A → List A
  take zero xs = []
  take (suc n) [] = []
  take (suc n) (x ∷ xs) = x ∷ take n xs

  abbrev pub drop : ℕ → List A → List A
  drop zero xs = xs
  drop (suc n) [] = []
  drop (suc n) (x ∷ xs) = drop n xs

  abbrev pub replicate : ℕ → A → List A
  replicate zero a = []
  replicate (suc n) a = a ∷ replicate n a

-- The size of the buffers `encrypted` and `decrypted`.
abbrev pub buffer_size : ℕ
buffer_size = 4096

-- What is written into the start of a buffer, and what the buffer held behind it.
pub overlay : Bytes → Bytes → Bytes
overlay [] old = old
overlay (b ∷ new) [] = []
overlay (b ∷ new) (c ∷ old) = b ∷ overlay new old

-- A buffer of zeros.
unfoldable pub zeros : Bytes
zeros = replicate buffer_size 0

-- A frame for `send`, `exit(0)`, or the use of a null key.
pub data Sent : Type 0 where
  sent : Bytes → Sent
  exits : Sent
  crashes : Sent

-- The bytes received and the text that they hold, `exit(0)`, or the use of a null key.
pub data Received : Type 0 where
  received : ℤ → Bytes → Received
  exits : Received
  crashes : Received

abbrev pub frame : Coded → Sent
frame (coded c) = sent (overlay c zeros)
frame failed = Sent.exits
frame crashed = Sent.crashes

abbrev pub text : ℤ → Coded → Received
text n (coded m) = received n (c_str (overlay m zeros))
text n failed = Received.exits
text n crashed = Received.crashes

module _ {Key : Type 0} (ssl : OpenSsl Key) where
  -- The plain text is encrypted into a buffer of zeros, and the whole buffer is sent.
  unfoldable pub send_p3 : Bytes → Bytes → KeyOption → Sent
  unfolding overlay
  send_p3 plaintext key public = frame (public_encrypt ssl plaintext key)
  send_p3 plaintext key private = frame (private_encrypt ssl plaintext key)
  send_p3 plaintext key other = sent zeros

  -- `recv` writes `bytes` into the buffer `encrypted`, which is not initialised and holds `stale`;
  -- it returns `rcv_byte`. Of the buffer 256 bytes are decrypted, whatever was received.
  unfoldable pub recv_p3 : ℤ → Bytes → Bytes → Bytes → KeyOption → Received
  unfolding overlay
  recv_p3 rcv_byte bytes stale key public =
      text rcv_byte (public_decrypt ssl (take modulus (overlay bytes stale)) key)
  recv_p3 rcv_byte bytes stale key private =
      text rcv_byte (private_decrypt ssl (take modulus (overlay bytes stale)) key)
  recv_p3 rcv_byte bytes stale key other = received rcv_byte []

pub overlay-append :
    (new old : Bytes) → length new ≤ length old → overlay new old ≡ new ++ drop (length new) old
unfolding overlay
overlay-append [] old h = refl
overlay-append (b ∷ new) [] h = absurd (omega arith)
overlay-append (b ∷ new) (c ∷ old) h = ap (◌∷◌ b) (overlay-append new old (omega arith))

pub take-append : (xs ys : Bytes) (n : ℕ) → length xs ≡ n → take n (xs ++ ys) ≡ xs
take-append [] ys zero e = refl
take-append [] ys (suc n) e = absurd (omega arith)
take-append (x ∷ xs) ys zero e = absurd (omega arith)
take-append (x ∷ xs) ys (suc n) e = ap (◌∷◌ x) (take-append xs ys n (omega arith))

pub take-overlay :
    (n k : ℕ) (bytes stale : Bytes)
    → n ≤ k
    → n ≤ length bytes
    → k ≤ length stale
    → take n (overlay (take k bytes) stale) ≡ take n bytes
unfolding overlay
take-overlay zero k bytes stale h i j = refl
take-overlay (suc n) zero bytes stale h i j = absurd (omega arith)
take-overlay (suc n) (suc k) [] stale h i j = absurd (omega arith)
take-overlay (suc n) (suc k) (b ∷ bytes) [] h i j = absurd (omega arith)
take-overlay (suc n) (suc k) (b ∷ bytes) (c ∷ stale) h i j =
    ap (◌∷◌ b) (take-overlay n k bytes stale (omega arith) (omega arith) (omega arith))

pub length-replicate : (n a : ℕ) → length (replicate n a) ≡ n
length-replicate zero a = refl
length-replicate (suc n) a = ap suc (length-replicate n a)

pub c_str-append : (s rest : Bytes) → Lacks 0 s → c_str (s ++ (0 ∷ rest)) ≡ s
unfolding c_str
c_str-append [] rest h = refl
c_str-append (c ∷ s) rest h = ground (arith, c_str-append s rest h.1)

pub drop-replicate : (n m : ℕ) → n < m → (rest : Bytes) × (drop n (replicate m 0) ≡ 0 ∷ rest)
drop-replicate n zero h = absurd (omega arith)
drop-replicate zero (suc m) h = (replicate m 0, refl)
drop-replicate (suc n) (suc m) h = drop-replicate n m (omega arith)
