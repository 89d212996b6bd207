-- ===== src/Util/Keys/Names.antt =====
-- The identifier of a pair of keys, and the files that are made and removed under it.
use secure_person2person_p2p.Base.{
  ℕ, ◌+◌, ◌*◌, ◌≤◌, ◌<◌, ◌≡◌, refl, ap, ◌∙◌, true, List, [], ◌∷◌, ◌++◌, ltb, length, length-append,
  Bytes, All, codes, arith,
}
use secure_person2person_p2p.Process.{done}
use secure_person2person_p2p.Process.Console.{
  Console, Io, bind_done, bind_print, print_lem, pure_lem, ◌>>=◌,
}
use secure_person2person_p2p.Util.Keys.Letters.{IsAlnum, letter, letters, random_loop_lem}
use secure_person2person_p2p.Util.Keys.{
  random_string, file_name, make_command, extract_command, remove_command, run_command,
  command_size, create_key_and_certificate, delete_key_and_certificate,
}

length-file_name :
    (cert_path uid pem_name ending : Bytes)
    → length (file_name cert_path uid pem_name ending)
      ≡ length cert_path + length uid + length pem_name + length ending + 2
length-file_name cert_path uid pem_name ending = omega (
  arith,
  length-append cert_path (codes "/" ++ (uid ++ (codes "_" ++ (pem_name ++ ending)))),
  length-append uid (codes "_" ++ (pem_name ++ ending)),
  length-append pem_name ending,
)

-- The commands fit their buffer where the names are not too long.
length-make_command :
    (cert_path uid pem_name : Bytes)
    → length (make_command cert_path uid pem_name)
      ≤ 2 * length cert_path + 3 * length uid + 3 * length pem_name + 200
length-make_command cert_path uid pem_name =
    let email = codes "_" ++ (pem_name ++ codes "@icheft\"") in
    let subject : Bytes =
      codes " -subj \"/C=TW/ST=Taiwan/L=TPE/O=NTU/OU=IM/CN=localhost/emailAddress="
      ++ (uid ++ email) in
    let crt = file_name cert_path uid pem_name (codes ".crt") in
    let key = file_name cert_path uid pem_name (codes ".key") in
    omega (
      arith,
      length-append key (codes " -out " ++ (crt ++ subject)),
      length-append crt subject,
      length-append uid email,
      length-append pem_name (codes "@icheft\""),
      length-file_name cert_path uid pem_name (codes ".crt"),
      length-file_name cert_path uid pem_name (codes ".key"),
    )

length-extract_command :
    (cert_path uid pem_name : Bytes)
    → length (extract_command cert_path uid pem_name)
      ≤ 2 * length cert_path + 2 * length uid + 2 * length pem_name + 60
length-extract_command cert_path uid pem_name =
    let crt = file_name cert_path uid pem_name (codes ".crt") in
    let pem = file_name cert_path uid pem_name (codes ".pem") in
    omega (
      arith,
      length-append crt (codes " > " ++ pem),
      length-file_name cert_path uid pem_name (codes ".crt"),
      length-file_name cert_path uid pem_name (codes ".pem"),
    )

-- A command that fits is given to the shell.
run_short :
    {A : Type 0} (s : Bytes) (f : Unit {0} → Io A) (c : Console)
    → length s < command_size
    → (run_command s >>= f) c ≡ f tt (record c { commands = c.commands ++ s ∷ [] })
unfolding ◌>>=◌
run_short s f c h = let e : ltb (length s) command_size ≡ true = ground arith in rw e

regroup :
    (xs : List Bytes) (a b d e f : Bytes)
    → ((((xs ++ a ∷ []) ++ b ∷ []) ++ d ∷ []) ++ e ∷ []) ++ f ∷ []
      ≡ xs ++ (a ∷ (b ∷ (d ∷ (e ∷ (f ∷ [])))))
regroup [] a b d e f = refl
regroup (x ∷ xs) a b d e f = ap (◌∷◌ x) (regroup xs a b d e f)

module _ (cert_path target pem_name : Bytes) (short_path : length cert_path ≤ 160)
    (short_name : length pem_name ≤ 160) where
  create_lem :
      (draw : ℕ → ℕ) (c : Console)
      → ((i : ℕ) → draw i < 62)
      → let uid = letters 5 draw 0 in
        (out : Bytes) × (create_key_and_certificate draw cert_path target pem_name c ≡ (
          done uid,
          record c {
            output = out;
            commands =
                (c.commands ++ make_command cert_path uid pem_name ∷ [])
                ++ extract_command cert_path uid pem_name ∷ [];
          },
        ))
        × (length uid ≡ 5)
        × All IsAlnum uid
  unfolding create_key_and_certificate random_string
  create_lem draw c h =
      let uid = letters 5 draw 0 in
      let (e, n, a) = random_loop_lem 5 draw 0 [] c h in
      (
        _,
        bind_done _ _ c uid c e
            ∙ bind_print _ _ _
            ∙ run_short _ _ _ (omega (arith, length-make_command cert_path uid pem_name, n))
            ∙ run_short _ _ _ (omega (arith, length-extract_command cert_path uid pem_name, n))
            ∙ bind_print _ _ _
            ∙ pure_lem _ _,
        n,
        a,
      )

  length-remove_command :
      (uid ending : Bytes)
      → length uid ≡ 5
      → length ending ≤ 4
      → length (remove_command cert_path uid pem_name ending) < command_size
  length-remove_command uid ending n m =
      omega (arith, length-file_name cert_path uid pem_name ending)

  pub delete_lem :
      (uid : Bytes) (c : Console)
      → length uid ≡ 5
      → (out : Bytes) × (delete_key_and_certificate uid cert_path target pem_name c ≡ (
        done tt,
        record c {
          output = out;
          commands =
              ((c.commands ++ remove_command cert_path uid pem_name (codes ".key") ∷ [])
                ++ remove_command cert_path uid pem_name (codes ".crt") ∷ [])
              ++ remove_command cert_path uid pem_name (codes ".pem") ∷ [];
        },
      ))
  unfolding delete_key_and_certificate
  delete_lem uid c n = (
    _,
    bind_print _ _ c
        ∙ run_short _ _ _ (length-remove_command uid (codes ".key") n (omega arith))
        ∙ run_short _ _ _ (length-remove_command uid (codes ".crt") n (omega arith))
        ∙ run_short _ _ _ (length-remove_command uid (codes ".pem") n (omega arith))
        ∙ print_lem _ _,
  )

  -- For a directory and a name of at most 160 bytes each, and draws below 62: the identifier is the
  -- five letters that were drawn, where the digits are drawn by the numbers below 10, the small
  -- letters by the next 26 and the capital ones by the last 26; the commands fit their buffer, and
  -- the shell is given, in order, one that makes the private key and the certificate under the
  -- names of the identifier, one that writes the public key of that certificate, and one for each
  -- of these three files that removes it.
  pub delete-create_commands :
      (draw : ℕ → ℕ) (c : Console)
      → ((i : ℕ) → draw i < 62)
      → let uid : Bytes =
          letter (draw 0)
          ∷ (letter (draw 1) ∷ (letter (draw 2) ∷ (letter (draw 3) ∷ (letter (draw 4) ∷ [])))) in
        let path : Bytes → Bytes =
          λ ending. cert_path ++ (codes "/" ++ (uid ++ (codes "_" ++ (pem_name ++ ending)))) in
        let key = path (codes ".key") in
        let crt = path (codes ".crt") in
        let pem = path (codes ".pem") in
        let subject : Bytes =
          codes " -subj \"/C=TW/ST=Taiwan/L=TPE/O=NTU/OU=IM/CN=localhost/emailAddress="
          ++ (uid ++ (codes "_" ++ (pem_name ++ codes "@icheft\""))) in
        All IsAlnum uid
        × (((create_key_and_certificate draw cert_path target pem_name >>= λ uid.
                delete_key_and_certificate uid cert_path target pem_name)
              c).1.commands
            ≡ c.commands
              ++ ((codes "openssl req -x509 -sha256 -nodes -days 365 -newkey rsa:2048 -keyout "
                    ++ (key ++ (codes " -out " ++ (crt ++ subject))))
                  ∷ ((codes "openssl x509 -pubkey -noout -in " ++ (crt ++ (codes " > " ++ pem)))
                      ∷ ((codes "rm " ++ key)
                          ∷ ((codes "rm " ++ crt) ∷ ((codes "rm " ++ pem) ∷ []))))))
  delete-create_commands draw c h =
      let uid = letters 5 draw 0 in
      let (out, e, n, a) = create_lem draw c h in
      let (out', d) =
        delete_lem uid
          (record c {
            output = out;
            commands =
                (c.commands ++ make_command cert_path uid pem_name ∷ [])
                ++ extract_command cert_path uid pem_name ∷ [];
          })
          n in
      (a, ap (λ x. x.1.commands) (bind_done _ _ c uid _ e ∙ d) ∙ regroup c.commands _ _ _ _ _)
