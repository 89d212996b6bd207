-- ===== src/Server/Effects.antt =====
-- Predicates on the server's state that its code keeps, however it ends: a rule for each way to build
-- an action, and the handlers of `process_request` from what the calls of the database keep.
use secure_person2person_p2p.Base.{
  ◌≡◌, refl, Bool, true, false, List, Option, none, some, if◌then◌else◌, Bytes, c_str, ℤ,
}
use secure_person2person_p2p.Text.Number.{Except, ok, throw, stoi}
use secure_person2person_p2p.Database.Storage.{Storage}
use secure_person2person_p2p.Database.Amount.{Double}
use secure_person2person_p2p.Database.Operations.{
  user_register, user_login, user_logout, user_transaction, user_info, list as list_of, user_num,
  user_list_info,
}
use secure_person2person_p2p.Util.Rsa.{OpenSsl}
use secure_person2person_p2p.Util.Transport.{Sent, Received, received, private, send_p3, recv_p3}
use secure_person2person_p2p.Server.Commands.{
  CmdType, register, login, transaction, exit, err, second, parse_command,
}
use secure_person2person_p2p.Server.State.{
  Event, sends, World, M, ◌>>=◌, ◌>>◌, pure, stop, go_wrong, query, or_undefined, or_throw, gets,
  set_client_fds, emit,
}
use secure_person2person_p2p.Process.{Result, done, threw, exited, undefined, waits}
use secure_person2person_p2p.Server.Handler.{
  Peer, leaves, reply, serve_register, system_info, welcome, answer_login, serve_login, answer_list,
  serve_list, serve_transaction, sign_off, serve_exit, dispatch, handle, receive, Receipt,
}

-- A predicate that holds before an action holds after it.
pub record Keeps {Table A : Type 0} (P : World Table → Type 0) (m : M Table A) : Type 0 where
  pub at : (w : World Table) → P w → P (m w).1

module _ {Table A : Type 0} {P : World Table → Type 0} where
  pub Keeps-pure : (a : A) → Keeps P (pure a)
  unfolding ◌>>=◌
  Keeps-pure a = record { at = λ w h. h }

  pub Keeps-stop : Keeps P (stop {A = A})
  unfolding ◌>>=◌
  Keeps-stop = record { at = λ w h. h }

  pub Keeps-go_wrong : Keeps P (go_wrong {A = A})
  unfolding ◌>>=◌
  Keeps-go_wrong = record { at = λ w h. h }

  pub Keeps-or_undefined : (o : Option A) → Keeps P (or_undefined o)
  unfolding ◌>>=◌
  Keeps-or_undefined none = record { at = λ w h. h }
  Keeps-or_undefined (some a) = record { at = λ w h. h }

  pub Keeps-gets : (f : World Table → A) → Keeps P (gets f)
  unfolding ◌>>=◌
  Keeps-gets f = record { at = λ w h. h }

  pub Keeps-if : (b : Bool) (m k : M Table A) → Keeps P m → Keeps P k → Keeps P (if b then m else k)
  Keeps-if true m k h i = h
  Keeps-if false m k h i = i

module _ {Table A B : Type 0} {P : World Table → Type 0} where
  -- The rest of a block, from how its first action ended.
  pub Keeps-rest :
      (f : A → M Table B)
      → ((a : A) → Keeps P (f a))
      → (r : Result A) (w : World Table) → P w
      → P (((λ (v : World Table). (r, w)) >>= f) w).1
  unfolding ◌>>=◌
  Keeps-rest f h (done a) w p = (h a).at w p
  Keeps-rest f h (threw e) w p = p
  Keeps-rest f h (exited k) w p = p
  Keeps-rest f h undefined w p = p
  Keeps-rest f h waits w p = p

  pub Keeps-bind :
      (m : M Table A) (f : A → M Table B)
      → Keeps P m
      → ((a : A) → Keeps P (f a))
      → Keeps P (m >>= f)
  unfolding ◌>>=◌
  Keeps-bind m f h k = record { at = λ w p. let (r, w') = m w in Keeps-rest f k r w' (h.at w p) }

  -- The rest may use that no exception was thrown.
  pub Keeps-bind-or_throw :
      (e : Except A) (f : A → M Table B)
      → ((a : A) → e ≡ ok a → Keeps P (f a))
      → Keeps P (or_throw e >>= f)
  unfolding ◌>>=◌
  Keeps-bind-or_throw (ok a) f h = record { at = (h a refl).at }
  Keeps-bind-or_throw (throw x) f h = record { at = λ w p. p }

pub ruleset keeps_rules =
    (Keeps-pure, Keeps-stop, Keeps-go_wrong, Keeps-or_undefined, Keeps-gets, Keeps-if, Keeps-bind)

-- What the handlers do to the state. `Allowed` is on the amounts of transfers.
pub record Stable {Table D : Type 0} (st : Storage Table) (num : Double D)
    (P : World Table → Type 0) (Allowed : D → Type 0) : Type 0 where
  pub emit_keeps : (e : Event) → Keeps P (emit e)
  pub fds_keeps : (fds : List (Bytes × Option ℤ)) → Keeps P (set_client_fds fds)
  pub register_keeps : (u ip : Bytes) → Keeps P (query (λ t. user_register st t u ip))
  pub login_keeps : (u ip : Bytes) (p q fd : ℤ) → Keeps P (query (λ t. user_login st t u ip p q fd))
  pub logout_keeps : (ip : Bytes) (p : ℤ) → Keeps P (query (λ t. user_logout st t ip p))
  pub info_keeps : (u : Bytes) → Keeps P (query (λ t. user_info st t u))
  pub list_keeps : (online : Bool) → Keeps P (query (λ t. list_of st t online))
  pub num_keeps : (online : Bool) → Keeps P (query (λ t. user_num st t online))
  pub text_keeps : Keeps P (query (λ t. user_list_info st t))
  pub transaction_keeps :
      (snd rcv : Bytes) (pay : D)
      → Allowed pay
      → Keeps P (query (λ t. user_transaction st num t snd rcv pay))

-- An answer only tells the kernel.
module _ {Table D Key : Type 0} {P : World Table → Type 0} (st : Storage Table) (num : Double D)
    (ssl : OpenSsl Key) (private_key : Bytes) (told : (e : Event) → Keeps P (emit e)) where
  pub Keeps-reply_from :
      (fd : ℤ) (response : Bytes) → Keeps P (reply st num ssl private_key fd response)
  unfolding reply
  Keeps-reply_from fd response = by_sent (send_p3 ssl (c_str response) private_key private)
    where
      by_sent :
          (s : Sent)
          → Keeps P (elim s [
            | Sent.sent frame ↦ emit (sends fd frame)
            | Sent.exits ↦ stop
            | Sent.crashes ↦ go_wrong
          ])
      by_sent (Sent.sent frame) = told (sends fd frame)
      by_sent Sent.exits = Keeps-stop
      by_sent Sent.crashes = Keeps-go_wrong

module _ {Table D Key : Type 0} {st : Storage Table} {num : Double D} {P : World Table → Type 0}
    {Allowed : D → Type 0} (stable : Stable st num P Allowed) (ssl : OpenSsl Key)
    (private_key : Bytes) where
  Keeps-reply : (fd : ℤ) (response : Bytes) → Keeps P (reply st num ssl private_key fd response)
  Keeps-reply = Keeps-reply_from st num ssl private_key stable.emit_keeps

  Keeps-system_info : (u : Bytes) → Keeps P (system_info st num ssl private_key u)
  unfolding system_info
  Keeps-system_info u = Keeps-bind _ _ (stable.info_keeps u) (λ o.
      Keeps-bind _ _ (Keeps-or_undefined o) (λ user.
        Keeps-bind _ _ (stable.num_keeps true)
          (λ n. Keeps-bind _ _ stable.text_keeps (λ users. Keeps-pure _))))

  Keeps-welcome : (peer : Peer) (u : Bytes) → Keeps P (welcome st num ssl private_key peer u)
  unfolding welcome
  Keeps-welcome peer u =
      search (keeps_rules, stable.fds_keeps, Keeps-system_info, stable.num_keeps, Keeps-reply) depth
        9

  Keeps-answer_login :
      (peer : Peer) (u name : Bytes) (status : ℤ)
      → Keeps P (answer_login st num ssl private_key peer u name status)
  unfolding answer_login
  Keeps-answer_login peer u name status = search (keeps_rules, Keeps-welcome, Keeps-reply)

  Keeps-serve_register :
      (peer : Peer) (args : List Bytes) → Keeps P (serve_register st num ssl private_key peer args)
  unfolding serve_register
  Keeps-serve_register peer args = search (keeps_rules, stable.register_keeps, Keeps-reply)

  Keeps-serve_login :
      (peer : Peer) (u : Bytes) (args : List Bytes)
      → Keeps P (serve_login st num ssl private_key peer u args)
  unfolding serve_login
  Keeps-serve_login peer u args =
      Keeps-bind-or_throw (stoi (second args)) _
        (λ port e. search (keeps_rules, stable.login_keeps, Keeps-answer_login) depth 7)

  Keeps-serve_list : (peer : Peer) (u : Bytes) → Keeps P (serve_list st num ssl private_key peer u)
  unfolding serve_list answer_list
  Keeps-serve_list peer u =
      search (keeps_rules, stable.list_keeps, Keeps-system_info, Keeps-reply) depth 7

  pub Keeps-serve_transaction :
      (args : List Bytes)
      → ((pay : D) → num.stod (second args) ≡ ok pay → Allowed pay)
      → Keeps P (serve_transaction st num ssl private_key args)
  unfolding serve_transaction
  Keeps-serve_transaction args allowed = Keeps-bind-or_throw (num.stod (second args)) _ (λ pay e.
      Keeps-bind _ _ (stable.transaction_keeps _ _ pay (allowed pay e)) (λ status.
        Keeps-bind _ _ (stable.info_keeps _) (λ o. search (keeps_rules, Keeps-reply) depth 9)))

  Keeps-sign_off : (peer : Peer) (u : Bytes) → Keeps P (sign_off st num ssl private_key peer u)
  unfolding sign_off
  Keeps-sign_off peer u = search (keeps_rules, stable.num_keeps, stable.fds_keeps) depth 7

  Keeps-serve_exit : (peer : Peer) (u : Bytes) → Keeps P (serve_exit st num ssl private_key peer u)
  unfolding serve_exit
  Keeps-serve_exit peer u =
      search (keeps_rules, stable.logout_keeps, Keeps-reply, Keeps-sign_off) depth 7

  -- Each command keeps what the calls of the database keep.
  pub Keeps-dispatch :
      (peer : Peer) (u : Bytes) (cmd : CmdType) (args : List Bytes)
      → (cmd ≡ transaction → (pay : D) → num.stod (second args) ≡ ok pay → Allowed pay)
      → Keeps P (dispatch st num ssl private_key peer u cmd args)
  unfolding dispatch
  Keeps-dispatch peer u register args h = search (keeps_rules, Keeps-serve_register)
  Keeps-dispatch peer u login args h = search (keeps_rules, Keeps-serve_login)
  Keeps-dispatch peer u CmdType.list args h = search (keeps_rules, Keeps-serve_list)
  Keeps-dispatch peer u transaction args h =
      Keeps-bind _ _ (Keeps-serve_transaction args (h refl)) (λ x. Keeps-pure _)
  Keeps-dispatch peer u exit args h = search (keeps_rules, Keeps-serve_exit)
  Keeps-dispatch peer u err args h = search (keeps_rules, Keeps-reply)

  Keeps-gone :
      (peer : Peer) (u : Bytes)
      → Keeps P (do
        query (λ t. user_logout st t peer.clientip peer.clientport)
        sign_off st num ssl private_key peer u
        pure leaves)
  Keeps-gone peer u = search (keeps_rules, stable.logout_keeps, Keeps-sign_off) depth 7

  -- A message that is not the transfer of an amount that is not allowed.
  abbrev pub IsAllowed : Bytes → Type 0
  IsAllowed raw =
      (parse_command raw).0 ≡ transaction
      → (pay : D) → num.stod (second (parse_command raw).1) ≡ ok pay
      → Allowed pay

  pub Keeps-handle :
      (peer : Peer) (u : Bytes) (n : ℤ) (raw : Bytes)
      → IsAllowed raw
      → Keeps P (handle st num ssl private_key peer u n raw)
  unfolding handle
  Keeps-handle peer u n raw h =
      Keeps-if _ _ _ (Keeps-gone peer u)
        (Keeps-dispatch peer u (parse_command raw).0 (parse_command raw).1 h)

  -- The plain text of what a `recv` did.
  abbrev pub ReceiptAllowed : Receipt → Type 0
  ReceiptAllowed r =
      (n : ℤ) (raw : Bytes)
      → recv_p3 ssl r.rcv_byte r.bytes r.stale private_key private ≡ received n raw
      → IsAllowed raw

  pub Keeps-receive :
      (peer : Peer) (u : Bytes) (r : Receipt)
      → ReceiptAllowed r
      → Keeps P (receive st num ssl private_key peer u r)
  unfolding receive
  Keeps-receive peer u r h =
      by_received (recv_p3 ssl r.rcv_byte r.bytes r.stale private_key private) h
    where
      by_received :
          (x : Received)
          → ((n : ℤ) (raw : Bytes) → x ≡ received n raw → IsAllowed raw)
          → Keeps P (elim x [
            | Received.received n raw ↦ handle st num ssl private_key peer u n raw
            | Received.exits ↦ stop
            | Received.crashes ↦ go_wrong
          ])
      by_received (Received.received n raw) k = Keeps-handle peer u n raw (k n raw refl)
      by_received Received.exits k = Keeps-stop
      by_received Received.crashes k = Keeps-go_wrong

-- What a block leaves, where its rest keeps what its first action left.
pub rest_keeps :
    {Table A B : Type 0} (P : World Table → Type 0) (m : M Table A) (f : A → M Table B)
    (w : World Table)
    → ((a : A) → Keeps P (f a))
    → P (m w).1
    → P ((m >>= f) w).1
unfolding ◌>>=◌
rest_keeps P m f w h p = let (r, w') = m w in Keeps-rest f h r w' p
