-- ===== src/Protocol/Exit.antt =====
-- The end of a session, from the menu's exit to the end of the thread.
use secure_person2person_p2p.Base.{
  ◌≡◌, sym, ap, ◌∙◌, Bool, true, false, ◌||◌, List, [], ◌∷◌, ◌++◌, Bytes, bytes_eq, codes, length,
  ℤ, pos, ◌-ℤ◌, eq_ℤ, arith,
}
use secure_person2person_p2p.Database.Storage.{Row, Storage, IsStorage}
use secure_person2person_p2p.Database.Amount.{Double}
use secure_person2person_p2p.Database.Operations.{
  user_logout, user_num, logged_out, logout_success, minus_one,
}
use secure_person2person_p2p.Database.Spec.{IsValid, bank, assign}
use secure_person2person_p2p.Database.Tables.{update-IsValid}
use secure_person2person_p2p.Database.Growth.{user_num-idle}
use secure_person2person_p2p.Database.Sessions.{
  closed, connected, user_logout_one, user_logout-closes,
}
use secure_person2person_p2p.Util.Rsa.{OpenSsl, IsPair}
use secure_person2person_p2p.Process.{done}
use secure_person2person_p2p.Process.Console.{Console}
use secure_person2person_p2p.Server.State.{
  World, sends, closes, forget, erase_client, ◌>>=◌, ◌>>◌, pure, gets, query, bind_done, query_lem,
  pure_lem, gets_lem, set_client_fds_lem,
}
use secure_person2person_p2p.Server.Entries.{
  Entries, IsErased, Dangles, erase_client-IsErased, forget-Dangles,
}
use secure_person2person_p2p.Server.Handler.{
  Peer, Receipt, again, leaves, reply, sign_off, serve_exit, dispatch, handle, receive,
  drop_connection, serve,
}
use secure_person2person_p2p.Client.Requests.{exit_message}
use secure_person2person_p2p.Client.Messages.{exit-read}
use secure_person2person_p2p.Client.Session.{Session}
use secure_person2person_p2p.Client.Choices.{Turn}
use secure_person2person_p2p.Client.Menu.{rounds}
use secure_person2person_p2p.Client.Menu.Exit.{removals, parted, rounds-exit}
use secure_person2person_p2p.Protocol.Wire.{
  Wire, IsWhole, IsMessage, receipt, told, receive-message, reply-message, exchange-message,
}

exit_message-IsMessage : IsMessage exit_message
exit_message-IsMessage = record { whole = omega arith; short = omega arith }

bye-IsMessage : IsMessage (codes "Bye\n")
bye-IsMessage = record { whole = omega arith; short = omega arith }

-- The world after the exit of the thread that holds the name.
abbrev signed_off : {Table : Type 0} → World Table → Table → Bytes → World Table
signed_off w t name = record w { db = t; client_fds = erase_client name w.client_fds }

-- The world after the end of a thread.
abbrev dropped : {Table : Type 0} → World Table → ℤ → World Table
dropped w fd = record w {
  client_fds = forget fd w.client_fds;
  current_user = w.current_user -ℤ pos 1;
  tmp_current_user = w.tmp_current_user -ℤ pos 1;
  events = w.events ++ closes fd ∷ [];
}

-- The world when a thread has answered with a frame and ended, with the table and the entries as given.
abbrev pub ended : {Table : Type 0} → World Table → Table → Entries → ℤ → Bytes → World Table
ended w t fds fd frame = record w {
  db = t;
  client_fds = fds;
  current_user = w.current_user -ℤ pos 1;
  tmp_current_user = w.tmp_current_user -ℤ pos 1;
  events = (w.events ++ sends fd frame ∷ []) ++ closes fd ∷ [];
}

module _ {Table D Key : Type 0} {st : Storage Table} (law : IsStorage st) (num : Double D)
    (ssl : OpenSsl Key) (private_key : Bytes) where
  sign_off_lem :
      (who : Peer) (u : Bytes) (w : World Table)
      → IsValid law w.db
      → sign_off st num ssl private_key who u w ≡ (done tt, signed_off w w.db u)
  unfolding sign_off
  sign_off_lem who u w v =
      bind_done (query (λ t. user_num st t true)) _ w _ w (
        query_lem _ w
        ∙ ap (λ t. (done (user_num st w.db true).1, record w { db = t }))
            (user_num-idle law w.db true v))
      ∙ bind_done (gets (λ w. w.client_fds)) _ w w.client_fds w (gets_lem _ w)
      ∙ set_client_fds_lem _ w

  -- The thread's round, where `user_logout` finds the connection's user.
  handle-exit_message :
      (who : Peer) (u c : Bytes) (n : ℤ) (t : Table) (w : World Table)
      → eq_ℤ n minus_one ≡ false
      → user_logout st w.db who.clientip who.clientport ≡ (t, logout_success)
      → IsValid law t
      → ((fd : ℤ) (v : World Table)
          → reply st num ssl private_key fd (codes "Bye\n") v ≡ (done tt, told v fd c))
      → handle st num ssl private_key who u n exit_message w
        ≡ (done leaves, signed_off (told (record w { db = t }) who.connection c) t u)
  unfolding handle dispatch serve_exit bytes_eq
  handle-exit_message who u c n t w e q v told_lem =
      let after : World Table = told (record w { db = t }) who.connection c in
      rw (e, exit-read, handle)
        (bind_done (serve_exit st num ssl private_key who u) _ w tt (signed_off after t u) (
            bind_done (query (λ t. user_logout st t who.clientip who.clientport)) _ w logout_success
              (record w { db = t })
              (query_lem _ w ∙ ap (λ (x : Table × ℤ). (done x.1, record w { db = x.0 })) q)
            ∙ bind_done (reply st num ssl private_key who.connection (codes "Bye\n")) _ _ tt after
                (told_lem who.connection (record w { db = t }))
            ∙ sign_off_lem who u after v)
          ∙ pure_lem _ _)

  -- A round that leaves the loop ends the thread.
  serve-leaves :
      (who : Peer) (u : Bytes) (r : Receipt) (rs : List Receipt) (w v : World Table)
      → eq_ℤ who.connection (pos 0) ≡ false
      → w.termination_flag ≡ false
      → receive st num ssl private_key who u r w ≡ (done leaves, v)
      → serve st num ssl private_key who u (r ∷ rs) w ≡ (done leaves, dropped v who.connection)
  unfolding serve drop_connection ◌>>=◌
  serve-leaves who u r rs w v c f e =
      let on : (eq_ℤ who.connection (pos 0) || w.termination_flag) ≡ false = rw (c, f) in
      rw on (
        bind_done (receive st num ssl private_key who u r)
          (λ next. elim next [
            | again name ↦ serve st num ssl private_key who name rs
            | leaves ↦ drop_connection st num ssl private_key who >> pure leaves
          ])
          w leaves v e)

module _ {Table D Key : Type 0} {st : Storage Table} (law : IsStorage st) (num : Double D)
    {ssl : OpenSsl Key} {public_key private_key : Bytes}
    (pair : IsPair ssl public_key private_key) where
  -- For the server's pair of 2048-bit keys, and a table that fits the mapping, has no name twice
  -- and in which exactly one user is online from the address and port of a connection that is not
  -- 0; for a client who has logged in, under an identifier of five characters, and types a newline,
  -- a 5 and a newline; and where no SIGINT has stopped the server and of each frame at least 256
  -- bytes arrive, in a buffer with room for them: the client's session ends in this round, with the
  -- request as the last that it sends and the files of its keys removed; and the thread logs that
  -- user out and changes no other account, answers, and ends, whatever else would be received: it
  -- lowers both counts, and closes the connection; of the list of connections the first entry of
  -- the thread's name is gone, if there is one, every other entry is there in its place, the
  -- pointers to this connection dangle, and every other pointer is as it was.
  pub rounds-served :
      (verbose : Bool) (turn : Turn) (turns : List Turn) (s : Session) (sent : List Bytes)
      (rest : Bytes) (console : Console) (who : Peer) (u : Bytes) (r : Row) (rs : List Receipt)
      (w : World Table) (request answer : Wire)
      → s.client_server_open ≡ true
      → length s.uid ≡ 5
      → console.input ≡ b'\n' ∷ (b'5' ∷ (b'\n' ∷ rest))
      → eq_ℤ who.connection (pos 0) ≡ false
      → w.termination_flag ≡ false
      → IsValid law w.db
      → connected law w.db who.clientip who.clientport ≡ r ∷ []
      → IsWhole request
      → IsWhole answer
      → (c : Bytes) × (c' : Bytes) × (t : Table) × (kept : Entries) × (fds : Entries)
        × (out : Bytes) × (rounds ssl public_key verbose
              (record turn { first = receipt answer c' } ∷ turns)
              s
              sent
              console
            ≡ (
              done (parted ssl public_key verbose s, sent ++ c ∷ []),
              record { input = rest; output = out; commands = console.commands ++ removals s.uid },
            ))
        × (serve st num ssl private_key who u (receipt request c ∷ rs) w
            ≡ (done leaves, ended w t fds who.connection c'))
        × IsErased u w.client_fds kept
        × Dangles who.connection kept fds
        × ((v : Bytes) → bank law t v ≡ assign (bank law w.db) r.username (closed r) v)
  rounds-served verbose turn turns s sent rest console who u r rs w request answer open_session five
        typed some_fd on v one whole whole' =
      let t = st.update (logged_out (law.load r)) w.db in
      let q = user_logout_one law w.db who.clientip who.clientport r v one in
      let agrees = (user_logout-closes law w.db who.clientip who.clientport r v one).1 in
      let (c, sent_c, arrives) =
        receive-message st num pair exit_message request exit_message-IsMessage whole in
      let (c', told_lem, read) =
        reply-message st num pair (codes "Bye\n") answer bye-IsMessage whole' in
      let (out, e) =
        rounds-exit ssl public_key verbose (record turn { first = receipt answer c' }) turns s sent
          rest console c (codes "Bye\n") open_session five
          (exchange-message ssl public_key exit_message _ c c' answer sent_c read) typed in
      (
        c,
        c',
        t,
        erase_client u w.client_fds,
        _,
        out,
        e,
        serve-leaves law num ssl private_key who u (receipt request c) rs w _ some_fd on (
            arrives who u w
            ∙ handle-exit_message law num ssl private_key who u c' request.rcv_byte t w
                whole.no_error q (update-IsValid law (logged_out (law.load r)) w.db v) told_lem),
        erase_client-IsErased u w.client_fds,
        forget-Dangles who.connection (erase_client u w.client_fds),
        λ x. ap (λ (y : Table × ℤ). bank law y.0 x) (sym q) ∙ agrees x,
      )
