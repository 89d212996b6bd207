-- ===== src/Protocol/Login/Round.antt =====
-- The thread's round for a login that succeeds.
use secure_person2person_p2p.Base.{
  ℕ, ◌≤◌, ◌<◌, ◌≡◌, ap, ◌∙◌, true, false, [], ◌∷◌, ◌++◌, inl, some, All-append, Bytes, bytes_eq,
  bytes_eq-append, codes, length, length-append, ℤ, pos, int_max, eq_ℤ, arith,
}
use secure_person2person_p2p.Text.Number.{stoi, to_string}
use secure_person2person_p2p.Text.Number.Decimal.{stoi-to_string, to_string-Lacks}
use secure_person2person_p2p.Text.Split.Tokens.{IsToken}
use secure_person2person_p2p.Database.Storage.{Row, Storage, IsStorage}
use secure_person2person_p2p.Database.Amount.{Double}
use secure_person2person_p2p.Database.Operations.{user_login, user_num, login_success, minus_one}
use secure_person2person_p2p.Database.Spec.{IsValid, bank}
use secure_person2person_p2p.Util.Rsa.{OpenSsl}
use secure_person2person_p2p.Process.{done}
use secure_person2person_p2p.Server.State.{
  World, gets, query, or_throw, set_client_fds, bind_done, query_lem, pure_lem, or_throw_lem,
  gets_lem, set_client_fds_lem,
}
use secure_person2person_p2p.Server.Handler.{
  Peer, again, reply, system_info, welcome, answer_login, serve_login, dispatch, handle,
}
use secure_person2person_p2p.Server.Lists.{greeting, online_users, user_num_lem, system_info_lem}
use secure_person2person_p2p.Client.Lists.{peer}
use secure_person2person_p2p.Client.Requests.{login_message}
use secure_person2person_p2p.Client.Messages.{parse_command-login_message}
use secure_person2person_p2p.Protocol.Wire.{IsMessage, told}

-- The world in which the user is logged in over the connection, with the table that the login leaves.
abbrev pub entered : {Table : Type 0} → World Table → Table → Bytes → ℤ → World Table
entered w t name fd = record w { db = t; client_fds = w.client_fds ++ (name, some fd) ∷ [] }

pub login_message-IsMessage :
    (name : Bytes) (p : ℕ)
    → IsToken b'#' name
    → length name < 20
    → length (to_string (pos p)) < 6
    → IsMessage (login_message name (pos p))
login_message-IsMessage name p h fits five = record {
  whole = All-append _ name _ h.2 (
    (λ e. absurd (omega arith)),
    to_string-Lacks 0 (pos p) (λ e. absurd (omega arith)) (inl (omega arith)),
  );
  short = omega (
    arith,
    length-append name (codes "#" ++ to_string (pos p)),
    length-append (codes "#") (to_string (pos p)),
  );
}

module _ {Table D Key : Type 0} {st : Storage Table} (law : IsStorage st) (num : Double D)
    (ssl : OpenSsl Key) (private_key : Bytes) where
  welcome_lem :
      (peer : Peer) (name c : Bytes) (r : Row) (w : World Table)
      → IsValid law w.db
      → bank law w.db name ≡ some r
      → ((fd : ℤ) (v : World Table)
          → reply st num ssl private_key fd (greeting law r w.db) v ≡ (done tt, told v fd c))
      → welcome st num ssl private_key peer name w
        ≡ (done name, told (entered w w.db name peer.connection) peer.connection c)
  unfolding welcome
  welcome_lem peer name c r w v e told_lem =
      let after = entered w w.db name peer.connection in
      bind_done (gets (λ w. w.client_fds)) _ w w.client_fds w (gets_lem _ w)
      ∙ bind_done (set_client_fds (w.client_fds ++ (name, some peer.connection) ∷ [])) _ w tt after
          (set_client_fds_lem _ w)
      ∙ bind_done (system_info st num ssl private_key name) _ after (greeting law r w.db) after
          (system_info_lem law num ssl private_key after name r v e)
      ∙ bind_done (query (λ t. user_num st t true)) _ after (length (online_users law w.db)) after (
          query_lem _ after
          ∙ ap (λ x. (done x.1, record after { db = x.0 }))
              (user_num_lem law num ssl private_key w.db v))
      ∙ bind_done (reply st num ssl private_key peer.connection (greeting law r w.db)) _ after tt _
          (told_lem peer.connection after)
      ∙ pure_lem _ _

  serve_login_lem :
      (peer : Peer) (u name c : Bytes) (p : ℕ) (t : Table) (r : Row) (w : World Table)
      → p ≤ int_max
      → user_login st w.db name peer.clientip peer.clientport (pos p) peer.connection
        ≡ (t, login_success)
      → IsValid law t
      → bank law t name ≡ some r
      → ((fd : ℤ) (v : World Table)
          → reply st num ssl private_key fd (greeting law r t) v ≡ (done tt, told v fd c))
      → serve_login st num ssl private_key peer u (name ∷ (to_string (pos p) ∷ [])) w
        ≡ (done name, told (entered w t name peer.connection) peer.connection c)
  unfolding serve_login answer_login
  serve_login_lem peer u name c p t r w small q v e told_lem =
      bind_done (or_throw (stoi (to_string (pos p)))) _ w (pos p) w
        (or_throw_lem _ _ w (stoi-to_string (pos p) (small, omega arith)))
      ∙ bind_done
          (query (λ t. user_login st t name peer.clientip peer.clientport (pos p) peer.connection))
          _ w login_success (record w { db = t })
          (query_lem _ w ∙ ap (λ (x : Table × ℤ). (done x.1, record w { db = x.0 })) q)
      ∙ welcome_lem peer name c r (record w { db = t }) v e told_lem

  pub handle-login_message :
      (peer : Peer) (u name c : Bytes) (n : ℤ) (p : ℕ) (t : Table) (r : Row) (w : World Table)
      → eq_ℤ n minus_one ≡ false
      → IsToken b'#' name
      → bytes_eq name (codes "REGISTER") ≡ false
      → p ≤ int_max
      → user_login st w.db name peer.clientip peer.clientport (pos p) peer.connection
        ≡ (t, login_success)
      → IsValid law t
      → bank law t name ≡ some r
      → ((fd : ℤ) (v : World Table)
          → reply st num ssl private_key fd (greeting law r t) v ≡ (done tt, told v fd c))
      → handle st num ssl private_key peer u n (login_message name (pos p)) w
        ≡ (done (again name), told (entered w t name peer.connection) peer.connection c)
  unfolding handle dispatch
  handle-login_message peer u name c n p t r w e h other small q v found told_lem =
      rw
        (
          e,
          bytes_eq-append name (codes "#" ++ to_string (pos p)) h.0,
          parse_command-login_message name p h,
          other,
          handle,
        )
        (bind_done (serve_login st num ssl private_key peer u (name ∷ (to_string (pos p) ∷ []))) _ w
            name _ (serve_login_lem peer u name c p t r w small q v found told_lem)
          ∙ pure_lem _ _)
