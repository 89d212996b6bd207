-- ===== src/Protocol/Login/Refused.antt =====
-- A login that the server refuses.
use secure_person2person_p2p.Base.{
  ℕ, ◌≤◌, ◌<◌, ◌^◌, ◌≡◌, ap, ◌∙◌, true, false, [], ◌∷◌, ◌++◌, inl, inr, none, some, Option,
  Option-cases, All, Bytes, bytes_eq, bytes_eq-append, codes, length, ℤ, pos, int_max, eq_ℤ, arith,
}
use secure_person2person_p2p.Text.Number.{stoi, to_string}
use secure_person2person_p2p.Text.Number.Decimal.{stoi-to_string}
use secure_person2person_p2p.Text.Split.Tokens.{IsToken}
use secure_person2person_p2p.Database.Storage.{Row, Storage, IsStorage}
use secure_person2person_p2p.Database.Amount.{Double}
use secure_person2person_p2p.Database.Operations.{
  user_login, is_online, login_auth_fail, login_exist, minus_one,
}
use secure_person2person_p2p.Database.Spec.{IsValid, bank}
use secure_person2person_p2p.Database.Refinement.{user_login_lem, user_login_unknown}
use secure_person2person_p2p.Util.Rsa.{OpenSsl, IsPair}
use secure_person2person_p2p.Process.{done}
use secure_person2person_p2p.Process.Console.{Console}
use secure_person2person_p2p.Process.Ports.{Probe}
use secure_person2person_p2p.Server.State.{
  World, pure, query, or_throw, bind_done, query_lem, pure_lem, or_throw_lem,
}
use secure_person2person_p2p.Server.Handler.{
  Peer, again, reply, answer_login, serve_login, dispatch, handle, receive,
}
use secure_person2person_p2p.Client.Requests.{login_message}
use secure_person2person_p2p.Client.Messages.{parse_command-login_message}
use secure_person2person_p2p.Client.Login.{yes_or_no, Trial, login_server}
use secure_person2person_p2p.Client.Login.Request.{IsWord, login_server-other}
use secure_person2person_p2p.Protocol.Wire.{
  Wire, IsWhole, IsMessage, receipt, told, receive-message, reply-message, exchange-message,
}
use secure_person2person_p2p.Protocol.Login.Round.{login_message-IsMessage}

-- The status and the answer, by whether the name has an account.
abbrev pub refused_status : Option Row → ℤ
refused_status none = login_auth_fail
refused_status (some r) = login_exist

abbrev pub refused_answer : Option Row → Bytes
refused_answer none = to_string login_auth_fail ++ codes " AUTH_FAIL\n"
refused_answer (some r) = to_string login_exist ++ codes " DUPLICATE_LOGIN\n"

refused_answer-IsMessage : (o : Option Row) → IsMessage (refused_answer o)
unfolding to_string
refused_answer-IsMessage none = record { whole = omega arith; short = omega arith }
refused_answer-IsMessage (some r) = record { whole = omega arith; short = omega arith }

module _ {Table D Key : Type 0} {st : Storage Table} (law : IsStorage st) (num : Double D)
    (ssl : OpenSsl Key) (private_key : Bytes) where
  user_login_refused :
      (t : Table) (u ip : Bytes) (p q fd : ℤ)
      → IsValid law t
      → ((r : Row) → bank law t u ≡ some r → is_online r ≡ true)
      → user_login st t u ip p q fd ≡ (t, refused_status (bank law t u))
  user_login_refused t u ip p q fd v h = elim (Option-cases (bank law t u)) [
    | inl e ↦ user_login_unknown law t u ip p q fd v e ∙ rw e
    | inr (r, e) ↦ user_login_lem law t u ip p q fd r v e ∙ rw (e, h r e)
  ]

  answer_refused :
      (who : Peer) (u name c : Bytes) (o : Option Row) (w : World Table)
      → ((fd : ℤ) (v : World Table)
          → reply st num ssl private_key fd (refused_answer o) v ≡ (done tt, told v fd c))
      → answer_login st num ssl private_key who u name (refused_status o) w
        ≡ (done u, told w who.connection c)
  unfolding answer_login
  answer_refused who u name c none w told_lem =
      bind_done (reply st num ssl private_key who.connection (refused_answer none)) (λ x. pure u) w
        tt _ (told_lem who.connection w)
      ∙ pure_lem u _
  answer_refused who u name c (some r) w told_lem =
      bind_done (reply st num ssl private_key who.connection (refused_answer (some r)))
        (λ x. pure u) w tt _ (told_lem who.connection w)
      ∙ pure_lem u _

  handle-refused :
      (who : Peer) (u name c : Bytes) (n : ℤ) (p : ℕ) (w : World Table)
      → eq_ℤ n minus_one ≡ false
      → IsToken b'#' name
      → bytes_eq name (codes "REGISTER") ≡ false
      → p ≤ int_max
      → IsValid law w.db
      → ((r : Row) → bank law w.db name ≡ some r → is_online r ≡ true)
      → ((fd : ℤ) (v : World Table)
          → reply st num ssl private_key fd (refused_answer (bank law w.db name)) v
            ≡ (done tt, told v fd c))
      → handle st num ssl private_key who u n (login_message name (pos p)) w
        ≡ (done (again u), told w who.connection c)
  unfolding handle dispatch serve_login
  handle-refused who u name c n p w e h other small v taken told_lem =
      let args = name ∷ (to_string (pos p) ∷ []) in
      rw
        (
          e,
          bytes_eq-append name (codes "#" ++ to_string (pos p)) h.0,
          parse_command-login_message name p h,
          other,
          handle,
        )
        (bind_done (serve_login st num ssl private_key who u args) _ w u _ (
            bind_done (or_throw (stoi (to_string (pos p)))) _ w (pos p) w
              (or_throw_lem _ _ w (stoi-to_string (pos p) (small, omega arith)))
            ∙ bind_done
                (query
                  (λ t. user_login st t name who.clientip who.clientport (pos p) who.connection))
                _ w (refused_status (bank law w.db name)) w
                (query_lem _ w
                  ∙ ap (λ (x : Table × ℤ). (done x.1, record w { db = x.0 }))
                      (user_login_refused w.db name who.clientip who.clientport (pos p)
                        who.connection v taken))
            ∙ answer_refused who u name c (bank law w.db name) w told_lem)
          ∙ pure_lem _ _)

module _ {Table D Key : Type 0} {st : Storage Table} (law : IsStorage st) (num : Double D)
    {ssl : OpenSsl Key} {public_key private_key : Bytes}
    (pair : IsPair ssl public_key private_key) where
  -- For the server's pair of 2048-bit keys and a table that fits the mapping and has no name twice; after
  -- `n`, a name of at most 19 characters, without white space, `#` and NUL and other than `REGISTER`, that
  -- no account has or whose user is online already, and a port from 1 to 65535 of at most five
  -- characters that the client can bind; and where of each frame at least 256 bytes arrive, in a buffer
  -- with room for them: the thread changes nothing, also not the name it holds, and sends one frame, in
  -- which the client reads which of the two it was. The client goes by the name that was refused from then
  -- on.
  pub login_server-refused :
      (name : Bytes) (login_port : ℤ) (probe : Probe) (trial : Trial) (noise user rest : Bytes)
      (p : ℕ) (console : Console) (who : Peer) (u : Bytes) (w : World Table) (request answer : Wire)
      → All (λ x. yes_or_no x ≡ none) noise
      → IsWord user
      → IsToken b'#' user
      → length user < 20
      → bytes_eq user (codes "REGISTER") ≡ false
      → 0 < p
      → p < 2 ^ 16
      → length (to_string (pos p)) < 6
      → trial.socket_ok ≡ true
      → trial.binds p ≡ true
      → console.input
        ≡ noise ++ (b'n' ∷ (b'\n' ∷ (user ++ (b'\n' ∷ (to_string (pos p) ++ (b'\n' ∷ rest))))))
      → IsValid law w.db
      → ((r : Row) → bank law w.db user ≡ some r → is_online r ≡ true)
      → IsWhole request
      → IsWhole answer
      → (c : Bytes) × (c' : Bytes) × ((login_server ssl public_key name login_port probe trial
            (receipt answer c')
            console).0
          ≡ done (record {
            name = user;
            login_port = pos p;
            sent_frame = some c;
            rcv_msg = refused_answer (bank law w.db user);
          }))
        × (receive st num ssl private_key who u (receipt request c) w
            ≡ (done (again u), told w who.connection c'))
  login_server-refused name login_port probe trial noise user rest p console who u w request answer
        quiet word token short other low high five sock free typed v taken whole whole' =
      let (c, sent_c, arrives) =
        receive-message st num pair (login_message user (pos p)) request
          (login_message-IsMessage user p token short five) whole in
      let (c', told_lem, read) =
        reply-message st num pair (refused_answer (bank law w.db user)) answer
          (refused_answer-IsMessage (bank law w.db user)) whole' in
      (
        c,
        c',
        login_server-other ssl public_key name login_port probe trial (receipt answer c') noise user
              rest p console quiet word short low high five sock typed
            ∙ rw (
              free,
              exchange-message ssl public_key (login_message user (pos p)) _ c c' answer sent_c
                  read,
            ),
        arrives who u w
            ∙ handle-refused law num ssl private_key who u user c' request.rcv_byte p w
                whole.no_error token other (omega arith) v taken told_lem,
      )
