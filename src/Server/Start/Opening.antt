-- ===== src/Server/Start/Opening.antt =====
-- A start of the server with a port and a limit.
use secure_person2person_p2p.Base.{
  ℕ, zero, suc, ◌%◌, ◌^◌, ◌≤◌, ◌<◌, ◌≡◌, ◌≢◌, refl, ap, ◌∙◌, true, false, not, Bool, [], ◌∷◌, ◌++◌,
  Option, none, some, ◌==◌, inl, Bytes, bytes_eq, codes, All, Lacks, ℤ, pos, int_max, InInt, arith,
}
use secure_person2person_p2p.Text.Number.{to_string}
use secure_person2person_p2p.Text.Number.Decimal.{
  IsDigit, stoi-to_string, to_string-ne-nil, is_number-natural, is_number-IsDigit, All-Lacks,
}
use secure_person2person_p2p.Process.{done}
use secure_person2person_p2p.Process.Console.{
  Console, ◌>>=◌, bind_done, bind_found, bind_print, pure_lem,
}
use secure_person2person_p2p.Process.Ports.{Probe}
use secure_person2person_p2p.Database.Storage.{Storage}
use secure_person2person_p2p.Database.Operations.{initialise}
use secure_person2person_p2p.Database.Lifecycle.{construct}
use secure_person2person_p2p.Server.Start.{
  assign_port, atoi, int_or_zero, at_least_one, is_silent, Config, configure, yes_or_no,
  check_db_status, Kernel, begin, main,
}
use secure_person2person_p2p.Server.Start.Questions.{check_db_status_lem}
use secure_person2person_p2p.Server.Start.Limits.{clamp, limit_of-clamp}

natural-IsDigit : (n : ℕ) → All IsDigit (to_string (pos n))
natural-IsDigit n = (is_number-IsDigit (to_string (pos n))).0 (is_number-natural n)

-- A number is no option.
no_dash : (s rest : Bytes) → s ≢ [] → Lacks b'-' s → bytes_eq s (b'-' ∷ rest) ≡ false
unfolding bytes_eq
no_dash [] rest h k = absurd (h refl)
no_dash (c ∷ s) rest h k = ground (arith, k.0)

not_silent : (n : ℕ) → is_silent (to_string (pos n)) ≡ false
not_silent n =
    let lacks = All-Lacks b'-' (to_string (pos n)) (inl (omega arith)) (natural-IsDigit n) in
    let ne = to_string-ne-nil (pos n) in
    rw (
      no_dash (to_string (pos n)) (codes "s") ne lacks,
      no_dash (to_string (pos n)) (codes "-silent") ne lacks,
    )

pub atoi-to_string : (n : ℤ) → InInt n → atoi (to_string n) ≡ some n
unfolding atoi
atoi-to_string n h = ap int_or_zero (stoi-to_string n h)

pub assign_port-to_string :
    (p : ℕ) (target_port : Option ℤ) (name : Bytes) (probe : Probe) (c : Console)
    → 0 < p
    → p ≤ int_max
    → assign_port (to_string (pos p)) target_port name probe c ≡ (done (some (pos p)), c)
unfolding assign_port ◌>>=◌
assign_port-to_string p target_port name probe c low high =
    let e : (p == 0) ≡ false = ground arith in rw (stoi-to_string (pos p) (high, omega arith), e)

-- The configuration that a port and a limit lead to.
abbrev chosen : ℕ → ℕ → ℕ → Config
chosen num_of_threads p l = record {
  server_port = some (pos p);
  limit = clamp num_of_threads (pos l);
  verbose = true;
}

configure-chosen :
    (num_of_threads p l : ℕ) (probe : Probe) (c : Console)
    → num_of_threads ≤ int_max
    → 0 < p
    → p ≤ int_max
    → l ≤ int_max
    → configure num_of_threads probe (to_string (pos p) ∷ (to_string (pos l) ∷ [])) c ≡ (
      done (chosen num_of_threads p l),
      record c {
        output =
            c.output
            ++ (codes "User limit is now set to "
                ++ (to_string (clamp num_of_threads (pos l)) ++ codes "\n"));
      },
    )
unfolding configure
configure-chosen num_of_threads p l probe c h low high fits =
    bind_done (assign_port (to_string (pos p)) none [] probe) _ c (some (pos p)) c
      (assign_port-to_string p none [] probe c low high)
    ∙ rw (not_silent l) (
        bind_found (atoi (to_string (pos l))) (pos l) _ c
          (atoi-to_string (pos l) (fits, omega arith))
        ∙ rw (limit_of-clamp num_of_threads (pos l) h (fits, omega arith))
            (bind_print _ _ c ∙ pure_lem _ _))

module _ {Table : Type 0} (st : Storage Table) where
  -- Behind the questions.
  listening :
      (p : ℕ) (config : Config) (kernel : Kernel) (erase reset : Bool) (created : ℤ) (t : Table)
      (c : Console)
      → p < 2 ^ 16
      → config.server_port ≡ some (pos p)
      → kernel.binds p ≡ true
      → kernel.listen_ok ≡ true
      → (begin st kernel config erase reset (pos 0) created t c).0
        ≡ done (record { config = config; port = p; erase = erase; table = initialise st t reset })
  unfolding begin construct ◌>>=◌
  listening p config kernel erase reset created t c h e b l =
      let k : p % 2 ^ 16 ≡ p = omega arith in rw (e, k, b, l)

  -- With a port from 1 to 65535 and a limit that fits an `int`, where the kernel gives the socket and
  -- the port and sqlite opens the file: whatever is typed, once both questions are answered `main`
  -- comes to its loop. It listens on that port, with as many workers as the limit says but no more
  -- than there are threads, of which there is at least one, on the table that the constructor leaves.
  pub main-chosen :
      (concurrency p l : ℕ) (probe : Probe) (kernel : Kernel) (created : ℤ) (t : Table)
      (noise noise' : Bytes) (a b : ℕ) (alive reset : Bool) (rest : Bytes) (c : Console)
      → concurrency ≤ int_max
      → 0 < p
      → p < 2 ^ 16
      → l ≤ int_max
      → kernel.socket_ok ≡ true
      → kernel.binds p ≡ true
      → kernel.listen_ok ≡ true
      → All (λ x. yes_or_no x ≡ none) noise
      → yes_or_no a ≡ some alive
      → All (λ x. yes_or_no x ≡ none) noise'
      → yes_or_no b ≡ some reset
      → c.input ≡ noise ++ (a ∷ (noise' ++ (b ∷ rest)))
      → (main st concurrency probe kernel
          (to_string (pos p) ∷ (to_string (pos l) ∷ []))
          (pos 0)
          created
          t
          c).0
        ≡ done (record {
          config = chosen (at_least_one concurrency) p l;
          port = p;
          erase = not alive;
          table = initialise st t reset;
        })
  unfolding main
  main-chosen concurrency p l probe kernel created t noise noise' a b alive reset rest c many low
        high fits s k m h e h' e' i =
      rw s (
        ap (λ x. x.0)
          (bind_done
              (configure (at_least_one concurrency) probe
                (to_string (pos p) ∷ (to_string (pos l) ∷ [])))
              _ c _ _
              (configure-chosen (at_least_one concurrency) p l probe c (one_fits concurrency many)
                low (omega arith) fits)
            ∙ bind_done check_db_status _ _ _ _
                (check_db_status_lem noise noise' a b alive reset rest _ h e h' e' i))
        ∙ listening p (chosen (at_least_one concurrency) p l) kernel (not alive) reset created t _
            high refl k m)
    where
      one_fits : (n : ℕ) → n ≤ int_max → at_least_one n ≤ int_max
      one_fits zero h = omega arith
      one_fits (suc n) h = h
