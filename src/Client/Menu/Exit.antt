-- ===== src/Client/Menu/Exit.antt =====
-- The end of a session by the menu's exit.
use secure_person2person_p2p.Base.{
  ◌≡◌, refl, ap, ◌∙◌, Bool, true, List, [], ◌∷◌, ◌++◌, some, length, Bytes, codes, arith,
}
use secure_person2person_p2p.Text.Number.{skip_spaces, in_range}
use secure_person2person_p2p.Process.{Result, done}
use secure_person2person_p2p.Process.Console.{
  Console, Io, ◌>>=◌, pure, lift, bind_done, bind_print, pure_lem,
}
use secure_person2person_p2p.Util.Rsa.{OpenSsl}
use secure_person2person_p2p.Util.Keys.{remove_command, delete_key_and_certificate}
use secure_person2person_p2p.Util.Keys.Names.{delete_lem}
use secure_person2person_p2p.Server.Handler.{Receipt}
use secure_person2person_p2p.Client.Requests.{exchange, exit_message, exit_server}
use secure_person2person_p2p.Client.Session.{
  Session, read_number, scan_signed, scan_number, scan_digits, end_session,
}
use secure_person2person_p2p.Client.Choices.{Turn, choose_exit}
use secure_person2person_p2p.Client.Menu.{choose, round, rounds, exit_option}

-- The commands that remove the keys of a login.
abbrev pub removals : Bytes → List Bytes
removals uid =
    remove_command (codes "certs") uid (codes "client") (codes ".key")
    ∷ (remove_command (codes "certs") uid (codes "client") (codes ".crt")
        ∷ (remove_command (codes "certs") uid (codes "client") (codes ".pem") ∷ []))

regroup :
    (xs : List Bytes) (a b d : Bytes)
    → ((xs ++ a ∷ []) ++ b ∷ []) ++ d ∷ [] ≡ xs ++ (a ∷ (b ∷ (d ∷ [])))
regroup [] a b d = refl
regroup (x ∷ xs) a b d = ap (◌∷◌ x) (regroup xs a b d)

lift_found :
    {A B : Type 0} (x : Result A) (a : A) (f : A → Io B) (c : Console)
    → x ≡ done a
    → (lift x >>= f) c ≡ f a c
unfolding ◌>>=◌
lift_found x a f c e = rw e

module _ {Key : Type 0} (ssl : OpenSsl Key) (server_pubkey : Bytes) (verbose : Bool) where
  end_session_lem :
      (s : Session) (r : Receipt) (c : Console) (frame msg : Bytes)
      → s.client_server_open ≡ true
      → length s.uid ≡ 5
      → exchange ssl server_pubkey exit_message r ≡ done (frame, msg)
      → (out : Bytes) × (end_session ssl server_pubkey s r c
          ≡ (done frame, record c { output = out; commands = c.commands ++ removals s.uid }))
  unfolding end_session exit_server
  end_session_lem s r c frame msg h n e =
      let parted : Console = record c {
        output = c.output ++ (codes "See you next time, " ++ (s.name ++ codes "!\n"));
      } in
      let (out, d) =
        delete_lem (codes "certs") (codes "client") (codes "client") (omega arith) (omega arith)
          s.uid parted n in
      (
        out,
        rw h (
            bind_print (codes "See you next time, " ++ (s.name ++ codes "!\n")) _ c
            ∙ lift_found (exchange ssl server_pubkey exit_message r) (frame, msg) _ parted e
            ∙ bind_done
                (delete_key_and_certificate s.uid (codes "certs") (codes "client") (codes "client"))
                _ parted tt _ d
            ∙ pure_lem frame _
            ∙ ap (λ cs. (done frame, record { input = c.input; output = out; commands = cs }))
                (regroup c.commands _ _ _)),
      )

  choose_exit_lem :
      (s : Session) (turn : Turn) (c : Console) (frame msg : Bytes)
      → s.client_server_open ≡ true
      → length s.uid ≡ 5
      → exchange ssl server_pubkey exit_message turn.first ≡ done (frame, msg)
      → (out : Bytes) × (choose_exit ssl server_pubkey verbose s turn c ≡ (
        done (s, frame ∷ []),
        record c { output = out; commands = c.commands ++ removals s.uid },
      ))
  unfolding choose_exit
  choose_exit_lem s turn c frame msg h n e =
      let (out, d) = end_session_lem s turn.first c frame msg h n e in
      (
        out ++ codes "\n*****Session ended*****\n",
        bind_done (end_session ssl server_pubkey s turn.first) _ c frame _ d
            ∙ bind_print (codes "\n*****Session ended*****\n") _ _
            ∙ pure_lem _ _,
      )

  -- The round up to the choice.
  round-five :
      (s : Session) (turn : Turn) (rest output : Bytes) (commands : List Bytes)
      → (out : Bytes) × (round ssl server_pubkey verbose s turn (record {
        input = b'\n' ∷ (b'5' ∷ (b'\n' ∷ rest));
        output = output;
        commands = commands;
      })
          ≡ (choose_exit ssl server_pubkey verbose (record s { opt = some exit_option }) turn
                >>= λ ended. pure (exit_option, ended))
              (record { input = rest; output = out; commands = commands }))
  unfolding round read_number scan_signed scan_number scan_digits skip_spaces in_range choose ◌>>=◌
  round-five s turn rest output commands = (_, refl)

  -- The session behind the choice of the exit.
  abbrev pub parted : Session → Session
  parted s = record s { opt = some exit_option }

  round-exit :
      (s : Session) (turn : Turn) (rest : Bytes) (c : Console) (frame msg : Bytes)
      → s.client_server_open ≡ true
      → length s.uid ≡ 5
      → exchange ssl server_pubkey exit_message turn.first ≡ done (frame, msg)
      → c.input ≡ b'\n' ∷ (b'5' ∷ (b'\n' ∷ rest))
      → (out : Bytes) × (round ssl server_pubkey verbose s turn c ≡ (
        done (exit_option, (parted s, frame ∷ [])),
        record { input = rest; output = out; commands = c.commands ++ removals s.uid },
      ))
  round-exit s turn rest c frame msg h n e i =
      let (before, d) = round-five s turn rest c.output c.commands in
      let now : Console = record { input = rest; output = before; commands = c.commands } in
      let (out, k) = choose_exit_lem (parted s) turn now frame msg h n e in
      (
        out,
        ap (λ x. round ssl server_pubkey verbose s turn (record c { input = x })) i
            ∙ d
            ∙ bind_done (choose_exit ssl server_pubkey verbose (parted s) turn) _ now
                (parted s, frame ∷ []) _ k
            ∙ pure_lem _ _,
      )

  -- A user who has logged in, under an identifier of five characters, and types a newline, a 5 and a
  -- newline: if the exchange of the exit's request with the server ends, the session ends in this
  -- round whatever would follow. The request is the last that is sent, the commands that remove the
  -- three files of the login's keys are run, and nothing else of what was typed is read.
  pub rounds-exit :
      (turn : Turn) (turns : List Turn) (s : Session) (sent : List Bytes) (rest : Bytes)
      (c : Console) (frame msg : Bytes)
      → s.client_server_open ≡ true
      → length s.uid ≡ 5
      → exchange ssl server_pubkey exit_message turn.first ≡ done (frame, msg)
      → c.input ≡ b'\n' ∷ (b'5' ∷ (b'\n' ∷ rest))
      → (out : Bytes) × (rounds ssl server_pubkey verbose (turn ∷ turns) s sent c ≡ (
        done (parted s, sent ++ frame ∷ []),
        record { input = rest; output = out; commands = c.commands ++ removals s.uid },
      ))
  unfolding rounds
  rounds-exit turn turns s sent rest c frame msg h n e i =
      let (out, d) = round-exit s turn rest c frame msg h n e i in
      (out, bind_done (round ssl server_pubkey verbose s turn) _ c _ _ d ∙ pure_lem _ _)
