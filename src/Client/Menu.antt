-- ===== src/Client/Menu.antt =====
-- The menu of `main` in src/client.cpp.
pub mod Exit
pub mod Kept
use secure_person2person_p2p.Base.{
  Bool, true, false, List, [], ◌∷◌, ◌++◌, Option, none, some, if◌then◌else◌, Bytes, codes, ℤ, pos,
  eq_ℤ,
}
use secure_person2person_p2p.Process.{waits}
use secure_person2person_p2p.Process.Console.{
  Io, pure, print, lift, or_undefined, read_byte, ◌>>=◌, ◌>>◌,
}
use secure_person2person_p2p.Util.Rsa.{OpenSsl}
use secure_person2person_p2p.Client.Session.{Session, read_number}
use secure_person2person_p2p.Client.Choices.{
  Turn, Ended, choose_register, choose_login, choose_list, choose_transaction, choose_exit,
}

abbrev pub menu : Bytes
menu =
    codes "\n*****Please select a method to continue*****\n\n"
    ++ (codes "1) [REGISTER] Register a user\n"
        ++ (codes "2) [LOGIN] Log in to server\n"
            ++ (codes "3) [LIST] Get latest updates\n"
                ++ (codes "4) [TRANSACTION] Make a transaction\n"
                    ++ codes "5) [EXIT] Log out from server\n"))))

-- The options as `opt` holds them.
abbrev pub exit_option : ℤ
exit_option = pos 5

module _ {Key : Type 0} (ssl : OpenSsl Key) (server_pubkey : Bytes) (verbose : Bool) where
  -- The `switch`.
  unfoldable pub choose : ℤ → Session → Turn → Io Ended
  unfolding choose_register choose_login choose_list choose_transaction choose_exit
  choose opt s turn =
      if eq_ℤ opt (pos 1)
      then choose_register ssl server_pubkey verbose s turn
      else if eq_ℤ opt (pos 2)
      then choose_login ssl server_pubkey verbose s turn
      else if eq_ℤ opt (pos 3)
      then choose_list ssl server_pubkey verbose s turn
      else if eq_ℤ opt (pos 4)
      then choose_transaction ssl server_pubkey verbose s turn
      else if eq_ℤ opt exit_option
      then choose_exit ssl server_pubkey verbose s turn
      else print (codes "\nCommand not found\n") >> pure (s, [])

  abbrev pub kept : Option ℤ → Option ℤ → Option ℤ
  kept (some n) before = some n
  kept none before = before

  -- A round of the loop; `opt` keeps its value if no number is typed.
  unfoldable pub round : Session → Turn → Io (ℤ × Ended)
  unfolding read_number choose
  round s turn = do
    print (codes "Press enter to continue...")
    _ ← read_byte
    print (27 ∷ (codes "[H" ++ (27 ∷ codes "[J")))
    print menu
    print (if s.client_server_open then codes "\n[" ++ (s.name ++ codes "] ") else codes "\n ")
    typed ← read_number
    _ ← read_byte
    opt ← or_undefined (kept typed s.opt)
    ended ← choose opt (record s { opt = some opt }) turn
    pure (opt, ended)

  -- The loop, as long as there are turns.
  unfoldable pub rounds : List Turn → Session → List Bytes → Io Ended
  unfolding round
  rounds [] s sent = lift waits
  rounds (turn ∷ turns) s sent = round s turn >>= λ (opt, (after, frames)).
      elim (eq_ℤ opt exit_option) [
        | true ↦ pure (after, sent ++ frames)
        | false ↦ rounds turns after (sent ++ frames)
      ]
