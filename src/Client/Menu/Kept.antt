-- ===== src/Client/Menu/Kept.antt =====
-- What a client that has logged in keeps through its session.
use secure_person2person_p2p.Base.{
  some, ◌≡◌, refl, ◌∙◌, Bool, true, false, List, [], ◌∷◌, ◌++◌, Bytes, codes, ℤ, pos, eq_ℤ,
}
use secure_person2person_p2p.Process.{Result, done, threw, exited, undefined, waits}
use secure_person2person_p2p.Process.Console.{Console, Io, pure, print}
use secure_person2person_p2p.Process.Ensures.{
  Ends, Ensures, Ensures-pure, Ensures-exit, Ensures-go_wrong, Ensures-waits, Ensures-if,
  Ensures-after, Ensures-then, Ensures-weaken, ensures_rules,
}
use secure_person2person_p2p.Util.Rsa.{OpenSsl}
use secure_person2person_p2p.Client.Session.{Session}
use secure_person2person_p2p.Client.Choices.{
  Turn, Ended, refresh, choose_register, choose_login, choose_list, choose_transaction, choose_exit,
  caught, complaint,
}
use secure_person2person_p2p.Client.Menu.{choose, round, rounds, exit_option}

-- Both have logged in, under the same name and port and with the same keys.
pub record SameLogin (s s' : Session) : Type 0 where
  pub before : s.client_server_open ≡ true
  pub after : s'.client_server_open ≡ true
  pub same_name : s'.name ≡ s.name
  pub same_port : s'.login_port ≡ s.login_port
  pub same_uid : s'.uid ≡ s.uid
  pub same_public : s'.public_key ≡ s.public_key
  pub same_private : s'.private_key ≡ s.private_key

SameLogin-trans : {s t u : Session} → SameLogin s t → SameLogin t u → SameLogin s u
SameLogin-trans h k = record {
  before = h.before;
  after = k.after;
  same_name = k.same_name ∙ h.same_name;
  same_port = k.same_port ∙ h.same_port;
  same_uid = k.same_uid ∙ h.same_uid;
  same_public = k.same_public ∙ h.same_public;
  same_private = k.same_private ∙ h.same_private;
}

SameLogin-refl : (s : Session) → s.client_server_open ≡ true → SameLogin s s
SameLogin-refl s h = record {
  before = h;
  after = h;
  same_name = refl;
  same_port = refl;
  same_uid = refl;
  same_public = refl;
  same_private = refl;
}

module _ {Key : Type 0} (ssl : OpenSsl Key) (server_pubkey : Bytes) (verbose : Bool) where
  abbrev Same : Session → Ended → Type 0
  Same s ended = SameLogin s ended.0

  refresh-SameLogin :
      (s : Session) (r : _)
      → s.client_server_open ≡ true
      → Ensures (λ e. SameLogin s e.0) (refresh ssl server_pubkey verbose s r)
  refresh-SameLogin s r h = Ensures-after _ _ (λ sent. Ensures-after _ _ (λ known.
      Ensures-pure _ (record {
        before = h;
        after = h;
        same_name = refl;
        same_port = refl;
        same_uid = refl;
        same_public = refl;
        same_private = refl;
      })))

  choose_register-Same :
      (s : Session) (turn : Turn)
      → s.client_server_open ≡ true
      → Ensures (Same s) (choose_register ssl server_pubkey verbose s turn)
  unfolding choose_register
  choose_register-Same s turn h = rw h (search ensures_rules depth 20)

  choose_login-Same :
      (s : Session) (turn : Turn)
      → s.client_server_open ≡ true
      → Ensures (Same s) (choose_login ssl server_pubkey verbose s turn)
  unfolding choose_login
  choose_login-Same s turn h = rw h (search ensures_rules depth 20)

  choose_list-Same :
      (s : Session) (turn : Turn)
      → s.client_server_open ≡ true
      → Ensures (Same s) (choose_list ssl server_pubkey verbose s turn)
  unfolding choose_list
  choose_list-Same s turn h =
      Ensures-then _ _ _ (refresh-SameLogin s turn.first h)
        (λ x k. Ensures-after _ _ (λ u. Ensures-pure _ k))

  caught-Same :
      (s s' : Session) (frames : List Bytes) (complaint key_text : Bytes)
      (x : Result (ℤ × Bytes × Bytes)) (rest : (ℤ × Bytes × Bytes) → Io Ended)
      → SameLogin s s'
      → ((y : ℤ × Bytes × Bytes) → Ensures (Same s) (rest y))
      → Ensures (Same s) (caught ssl server_pubkey verbose s' frames complaint key_text x rest)
  caught-Same s s' frames complaint key_text (done y) rest h k = Ensures-after _ _ (λ u. k y)
  caught-Same s s' frames complaint key_text (threw e) rest h k =
      Ensures-after _ _ (λ u. Ensures-pure _ h)
  caught-Same s s' frames complaint key_text (exited n) rest h k =
      Ensures-after _ _ (λ u. Ensures-exit n)
  caught-Same s s' frames complaint key_text undefined rest h k = Ensures-go_wrong
  caught-Same s s' frames complaint key_text waits rest h k = Ensures-after _ _ (λ u. Ensures-waits)

  choose_transaction-Same :
      (s : Session) (turn : Turn)
      → s.client_server_open ≡ true
      → Ensures (Same s) (choose_transaction ssl server_pubkey verbose s turn)
  unfolding choose_transaction
  choose_transaction-Same s turn h = Ensures-then _ _ _ (refresh-SameLogin s turn.first h) (λ x k.
      Ensures-after _ _ (λ u. Ensures-after _ _ (λ v. Ensures-after _ _ (λ receiver.
        Ensures-after _ _ (λ b. Ensures-after _ _ (λ w. Ensures-after _ _ (λ typed.
          Ensures-after _ _ (λ amount. Ensures-after _ _ (λ b'. caught-Same s x.0 _ _ _ _ _ k (λ y.
            Ensures-after _ _ (λ u1. Ensures-after _ _ (λ u2.
              Ensures-then _ _ _ (refresh-SameLogin x.0 turn.third k.after)
                (λ z m. Ensures-after _ _ (λ u3. Ensures-pure _ (SameLogin-trans k m)))))))))))))))

  choose_exit-Same :
      (s : Session) (turn : Turn)
      → s.client_server_open ≡ true
      → Ensures (Same s) (choose_exit ssl server_pubkey verbose s turn)
  unfolding choose_exit
  choose_exit-Same s turn h =
      Ensures-after _ _ (λ frame. Ensures-after _ _ (λ u. Ensures-pure _ (SameLogin-refl s h)))

  choose-Same :
      (opt : ℤ) (s : Session) (turn : Turn)
      → s.client_server_open ≡ true
      → Ensures (Same s) (choose ssl server_pubkey verbose opt s turn)
  unfolding choose
  choose-Same opt s turn h = Ensures-if (eq_ℤ opt (pos 1)) _ _ (choose_register-Same s turn h) (
      Ensures-if (eq_ℤ opt (pos 2)) _ _ (choose_login-Same s turn h) (
        Ensures-if (eq_ℤ opt (pos 3)) _ _ (choose_list-Same s turn h) (
          Ensures-if (eq_ℤ opt (pos 4)) _ _ (choose_transaction-Same s turn h) (
            Ensures-if (eq_ℤ opt exit_option) _ _ (choose_exit-Same s turn h) (
              Ensures-after (print (codes "\nCommand not found\n")) _
                (λ u. Ensures-pure (s, []) (SameLogin-refl s h)))))))

  round-Same :
      (s : Session) (turn : Turn)
      → s.client_server_open ≡ true
      → Ensures (λ x. SameLogin s x.1.0) (round ssl server_pubkey verbose s turn)
  unfolding round
  round-Same s turn h = Ensures-after _ _ (λ a. Ensures-after _ _ (λ b. Ensures-after _ _ (λ c.
      Ensures-after _ _ (λ d. Ensures-after _ _ (λ e. Ensures-after _ _ (λ typed.
        Ensures-after _ _ (λ b'. Ensures-after _ _ (λ opt.
          Ensures-then _ _ _ (choose-Same opt (record s { opt = some opt }) turn h) (λ ended k.
            Ensures-pure _ (record {
              before = h;
              after = k.after;
              same_name = k.same_name;
              same_port = k.same_port;
              same_uid = k.same_uid;
              same_public = k.same_public;
              same_private = k.same_private;
            }))))))))))

  goes_on-Same :
      (s : Session) (x : ℤ × Ended) (turns : List Turn) (sent : List Bytes) (b : Bool)
      → SameLogin s x.1.0
      → Ensures (Same x.1.0) (rounds ssl server_pubkey verbose turns x.1.0 sent)
      → Ensures (Same s) (elim b [
        | true ↦ pure (x.1.0, sent)
        | false ↦ rounds ssl server_pubkey verbose turns x.1.0 sent
      ])
  goes_on-Same s x turns sent true k ih = Ensures-pure _ k
  goes_on-Same s x turns sent false k ih =
      Ensures-weaken (Same x.1.0) (Same s) _ (λ e m. SameLogin-trans k m) ih

  rounds-Same :
      (turns : List Turn) (s : Session) (sent : List Bytes)
      → s.client_server_open ≡ true
      → Ensures (Same s) (rounds ssl server_pubkey verbose turns s sent)
  unfolding rounds
  rounds-Same [] s sent h = Ensures-waits
  rounds-Same (turn ∷ turns) s sent h = Ensures-then _ _ _ (round-Same s turn h) (λ x k.
      goes_on-Same s x turns (sent ++ x.1.1) (eq_ℤ x.0 exit_option) k
        (rounds-Same turns x.1.0 (sent ++ x.1.1) k.after))

  -- Once a user has logged in, whatever is chosen and typed in any number of rounds, and whatever is
  -- received: a session that ends with the menu's exit is still that of the user, under the same name
  -- and port and with the same identifier and keys.
  pub rounds-SameLogin :
      (turns : List Turn) (s : Session) (sent : List Bytes) (c : Console)
      → s.client_server_open ≡ true
      → Ends (λ ended. SameLogin s ended.0) (rounds ssl server_pubkey verbose turns s sent c).0
  rounds-SameLogin turns s sent c h = (rounds-Same turns s sent h).at c
