-- ===== src/Client/Login/Request.antt =====
-- What the client sends when a user logs in under another name, with a port of his choice.
use secure_person2person_p2p.Base.{
  ℕ, ◌%◌, ◌<◌, ◌^◌, ◌≡◌, ◌≢◌, ◌⊎◌, Bool-cases, refl, ap, ◌∙◌, inl, inr, true, false, [], ◌∷◌, ◌++◌,
  none, some, ◌==◌, ltb, if◌then◌else◌, length, Bytes, codes, All, ℤ, pos, arith,
}
use secure_person2person_p2p.Text.Number.{to_string, is_space}
use secure_person2person_p2p.Text.Number.Decimal.{
  IsDigit, stoi-to_string, to_string-ne-nil, is_number-natural, is_number-IsDigit,
}
use secure_person2person_p2p.Process.{Result, done, threw, exited, undefined, waits}
use secure_person2person_p2p.Process.Console.{
  Console, pure, ◌>>=◌, lift, bind_done, bind_print, pure_lem, read_word, read_word-spaced,
}
use secure_person2person_p2p.Process.Ports.{Probe}
use secure_person2person_p2p.Process.Questions.{ask, asked, ask-answer}
use secure_person2person_p2p.Util.Rsa.{OpenSsl}
use secure_person2person_p2p.Server.Handler.{Receipt}
use secure_person2person_p2p.Client.Requests.{exchange, login_message}
use secure_person2person_p2p.Client.Login.{
  yes_or_no, read_into, account_question, choose_name, port_of, choose_port, Trial, Login, refusal,
  request_login, login_server,
}

-- A word as a `scanf` reads it.
abbrev pub IsWord : Bytes → Type 0
IsWord word = (word ≢ []) × All (λ c. is_space c ≡ false) word

digits-IsWord : (s : Bytes) → All IsDigit s → All (λ c. is_space c ≡ false) s
digits-IsWord [] h = tt
digits-IsWord (c ∷ s) h = (ground (arith, h.0), digits-IsWord s h.1)

port-IsWord : (p : ℕ) → IsWord (to_string (pos p))
port-IsWord p = (
  to_string-ne-nil (pos p),
  digits-IsWord (to_string (pos p))
      ((is_number-IsDigit (to_string (pos p))).0 (is_number-natural p)),
)

read_into-word :
    (size : ℕ) (word rest : Bytes) (c : Console)
    → IsWord word
    → length word < size
    → (c.input ≡ word ++ (b'\n' ∷ rest)) ⊎ (c.input ≡ b'\n' ∷ (word ++ (b'\n' ∷ rest)))
    → read_into size c ≡ (done word, record c { input = b'\n' ∷ rest })
read_into-word size word rest c h fits i =
    let short : ltb (length word) size ≡ true = ground arith in
    bind_done read_word _ c word _ (read_word-spaced word rest b'\n' c h.0 h.1 refl i)
    ∙ rw short (pure_lem _ _)

choose_name-other :
    (name noise user rest : Bytes) (c : Console)
    → All (λ x. yes_or_no x ≡ none) noise
    → IsWord user
    → length user < 20
    → c.input ≡ noise ++ (b'n' ∷ (b'\n' ∷ (user ++ (b'\n' ∷ rest))))
    → choose_name name c ≡ (
      done user,
      record {
        input = b'\n' ∷ rest;
        output =
            c.output
            ++ account_question
            ++ asked account_question noise
            ++ codes "Enter username: ";
        commands = c.commands;
      },
    )
unfolding choose_name yes_or_no
choose_name-other name noise user rest c h w fits i =
    bind_done (ask yes_or_no account_question) _ c false _ (
      ask-answer yes_or_no account_question noise b'n' false (b'\n' ∷ (user ++ (b'\n' ∷ rest))) c h
        refl i)
    ∙ bind_print (codes "Enter username: ") _ _
    ∙ read_into-word 20 user rest _ w fits (inr refl)

port_of-typed :
    (name : Bytes) (login_port : ℤ) (probe : Probe) (p : ℕ) (rest : Bytes) (c : Console)
    → 0 < p
    → p < 2 ^ 16
    → c.input ≡ b'\n' ∷ rest
    → port_of name login_port probe (to_string (pos p)) c
      ≡ (done (pos p), record c { input = rest })
unfolding port_of ◌>>=◌
port_of-typed name login_port probe p rest c low high i =
    let e : (p == 0) ≡ false = ground arith in
    rw (i, stoi-to_string (pos p) (omega arith, omega arith), e)

choose_port-typed :
    (name : Bytes) (login_port : ℤ) (probe : Probe) (p : ℕ) (rest : Bytes) (c : Console)
    → 0 < p
    → p < 2 ^ 16
    → length (to_string (pos p)) < 6
    → c.input ≡ b'\n' ∷ (to_string (pos p) ++ (b'\n' ∷ rest))
    → choose_port name login_port probe c ≡ (
      done (pos p),
      record {
        input = rest;
        output = c.output ++ codes "Enter port (enter 0 if you are not sure which port to use): ";
        commands = c.commands;
      },
    )
unfolding choose_port
choose_port-typed name login_port probe p rest c low high fits i =
    let asking : Console = record c {
      output = c.output ++ codes "Enter port (enter 0 if you are not sure which port to use): ";
    } in
    bind_print (codes "Enter port (enter 0 if you are not sure which port to use): ") _ c
    ∙ bind_done (read_into 6) (port_of name login_port probe) asking (to_string (pos p)) _
        (read_into-word 6 (to_string (pos p)) rest asking (port-IsWord p) fits (inr i))
    ∙ port_of-typed name login_port probe p rest _ low high refl

-- What an exchange leads to.
abbrev pub concluded : Bytes → ℤ → Result (Bytes × Bytes) → Result Login
concluded user port (done (frame, msg)) =
    done (record { name = user; login_port = port; sent_frame = some frame; rcv_msg = msg })
concluded user port (threw e) = threw e
concluded user port (exited n) = exited n
concluded user port undefined = undefined
concluded user port waits = waits

module _ {Key : Type 0} (ssl : OpenSsl Key) (server_pubkey : Bytes) where
  request_login-concluded :
      (user : Bytes) (p : ℕ) (trial : Trial) (r : Receipt) (c : Console)
      → p < 2 ^ 16
      → trial.socket_ok ≡ true
      → (request_login ssl server_pubkey user (pos p) trial r c).0 ≡ (
          if trial.binds p
          then concluded user (pos p) (exchange ssl server_pubkey (login_message user (pos p)) r)
          else done (record {
            name = user;
            login_port = pos p;
            sent_frame = none;
            rcv_msg = refusal (pos p);
          }))
  unfolding request_login ◌>>=◌
  request_login-concluded user p trial r c h s =
      let k : p % 2 ^ 16 ≡ p = omega arith in
      rw (s, k)
        (elim (Bool-cases (trial.binds p)) [
          | inl free ↦ rw free (sent (exchange ssl server_pubkey (login_message user (pos p)) r))
          | inr busy ↦ rw busy
        ])
    where
      sent :
          (x : Result (Bytes × Bytes))
          → ((lift x >>= λ (frame, msg). pure (record {
            name = user;
            login_port = pos p;
            sent_frame = some frame;
            rcv_msg = msg;
          }))
              c).0
            ≡ concluded user (pos p) x
      sent (done (frame, msg)) = refl
      sent (threw e) = refl
      sent (exited n) = refl
      sent undefined = refl
      sent waits = refl

  -- After `n`, a name of at most 19 characters without white space and a port from 1 to 65535 of at
  -- most five, where the kernel gives a socket: whatever is typed before the `n`, the client asks the
  -- server to log in that name with that port if the port can be bound, and otherwise sends nothing
  -- and refuses. From then on its name is that one, whatever the server answers.
  pub login_server-other :
      (name : Bytes) (login_port : ℤ) (probe : Probe) (trial : Trial) (r : Receipt)
      (noise user rest : Bytes) (p : ℕ) (c : Console)
      → All (λ x. yes_or_no x ≡ none) noise
      → IsWord user
      → length user < 20
      → 0 < p
      → p < 2 ^ 16
      → length (to_string (pos p)) < 6
      → trial.socket_ok ≡ true
      → c.input
        ≡ noise ++ (b'n' ∷ (b'\n' ∷ (user ++ (b'\n' ∷ (to_string (pos p) ++ (b'\n' ∷ rest))))))
      → (login_server ssl server_pubkey name login_port probe trial r c).0 ≡ (
          if trial.binds p
          then concluded user (pos p) (exchange ssl server_pubkey (login_message user (pos p)) r)
          else done (record {
            name = user;
            login_port = pos p;
            sent_frame = none;
            rcv_msg = refusal (pos p);
          }))
  unfolding login_server
  login_server-other name login_port probe trial r noise user rest p c h w short low high five s i =
      ap (λ x. x.0)
        (bind_done (choose_name name) _ c user _ (choose_name-other name noise user _ c h w short i)
          ∙ bind_done (choose_port user login_port probe) _ _ (pos p) _
              (choose_port-typed user login_port probe p rest _ low high five refl))
      ∙ request_login-concluded user p trial r _ high s
