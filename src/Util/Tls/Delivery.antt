-- ===== src/Util/Tls/Delivery.antt =====
-- What `SSL_read_D` makes of the bytes of `SSL_write_E`.
use secure_person2person_p2p.Base.{
  ◌+◌, ◌<◌, ◌≡◌, refl, ap, ◌∙◌, false, [], ◌∷◌, ◌++◌, append_assoc, some, length, length-append,
  Bytes, Lacks, ℤ, arith,
}
use secure_person2person_p2p.Process.{done}
use secure_person2person_p2p.Process.Console.{
  Console, pure, bind_found, bind_done, bind_print, pure_lem,
}
use secure_person2person_p2p.Util.Rsa.{OpenSsl, IsPair, modulus, max_message}
use secure_person2person_p2p.Util.Transport.{
  take, drop, replicate, overlay, overlay-append, take-append, length-replicate,
}
use secure_person2person_p2p.Util.Tls.{text_in, ssl_read_d, ssl_write_e}

text_in-terminated : (s rest : Bytes) → Lacks 0 s → text_in (s ++ (0 ∷ rest)) ≡ some s
unfolding text_in
text_in-terminated [] rest h = refl
text_in-terminated (c ∷ s) rest h = rw (text_in-terminated s rest h.1) (ground (arith, h.0))

-- The whole of an array that is overwritten by a text and its NUL.
text_in-overlay :
    (s old : Bytes)
    → Lacks 0 s
    → length s < length old
    → text_in (overlay (s ++ 0 ∷ []) old) ≡ some s
text_in-overlay s old h fits =
    ap text_in (
      overlay-append (s ++ 0 ∷ []) old (omega (arith, length-append s (0 ∷ [])))
      ∙ append_assoc s (0 ∷ []) (drop (length (s ++ 0 ∷ [])) old))
    ∙ text_in-terminated s _ h

-- The array that is sent.
padded : (b : Bytes) → length b ≡ modulus → overlay b (replicate (modulus + 1) 0) ≡ b ++ 0 ∷ []
padded b e =
    overlay-append b (replicate (modulus + 1) 0) (omega (arith, length-replicate (modulus + 1) 0))
    ∙ ap (λ n. b ++ drop n (replicate (modulus + 1) 0)) e

block_received :
    (b stale : Bytes)
    → length b ≡ modulus
    → length stale ≡ modulus + 1
    → take modulus (overlay (b ++ 0 ∷ []) stale) ≡ b
block_received b stale e room =
    ap (take modulus) (
      overlay-append (b ++ 0 ∷ []) stale (omega (arith, length-append b (0 ∷ [])))
      ∙ append_assoc b (0 ∷ []) (drop (length (b ++ 0 ∷ [])) stale))
    ∙ take-append b _ modulus e

module _ {Key : Type 0} {ssl : OpenSsl Key} {public_key private_key : Bytes}
    (pair : IsPair ssl public_key private_key) where
  -- For a pair of 2048-bit keys: a text of at most 244 bytes with no NUL is written as one block and a
  -- NUL, and whoever reads these 257 bytes under the public key, into a buffer of that size and with an
  -- array of that size for the text, gets the text back, whatever both held before.
  pub ssl_read_d-ssl_write_e :
      (response stale plaintext : Bytes) (n : ℤ) (content : Bytes) (c c' : Console)
      → ssl.pem_read_bio_rsa_private_key content ≡ some pair.private_rsa
      → Lacks 0 response
      → length response < max_message
      → length stale ≡ modulus + 1
      → length plaintext ≡ modulus + 1
      → (b : Bytes) × (ssl_write_e ssl (some content) response c ≡ (done (b ++ 0 ∷ []), c))
        × (ssl_read_d ssl pair.public_rsa n (b ++ 0 ∷ []) stale plaintext false c'
            ≡ (done (n, response), record c' { output = c'.output ++ [] }))
  unfolding ssl_write_e ssl_read_d
  ssl_read_d-ssl_write_e response stale plaintext n content c c' k h short room room' =
      let m = response ++ 0 ∷ [] in
      let l = length-append response (0 ∷ []) in
      let (b, e, size, d) = pair.private_block m (omega (arith, l)) in
      (
        b,
        bind_found (ssl.pem_read_bio_rsa_private_key content) pair.private_rsa _ c k
            ∙ rw e (pure_lem _ c ∙ ap (λ x. (done x, c)) (padded b size)),
        bind_done (pure []) _ c' [] c' (pure_lem [] c')
            ∙ bind_print [] _ c'
            ∙ rw (block_received b stale size room, d)
                (bind_done (pure (overlay m plaintext)) _ _ (overlay m plaintext) _ (pure_lem _ _)
                  ∙ bind_found (text_in (overlay m plaintext)) response _ _
                      (text_in-overlay response plaintext h (omega arith))
                  ∙ pure_lem _ _),
      )
