-- ===== src/Server/Answers/Round.antt =====
-- The answers of a round of `process_request`.
use secure_person2person_p2p.Base.{
  ℕ, ◌+◌, ◌≤◌, ◌≡◌, refl, sym, subst, List, [], append-nil, Bytes, c_str, ℤ, arith,
}
use secure_person2person_p2p.Database.Storage.{Storage}
use secure_person2person_p2p.Database.Amount.{Double}
use secure_person2person_p2p.Util.Rsa.{OpenSsl}
use secure_person2person_p2p.Util.Transport.{Sent, Received, private, send_p3, recv_p3}
use secure_person2person_p2p.Server.Commands.{
  CmdType, register, login, transaction, exit, err, parse_command,
}
use secure_person2person_p2p.Server.State.{sends, M, ◌>>=◌, pure, stop, go_wrong, emit}
use secure_person2person_p2p.Server.Handler.{
  Peer, Receipt, Next, again, leaves, reply, serve_register, system_info, welcome, answer_login,
  serve_login, answer_list, serve_list, serve_transaction, sign_off, serve_exit, dispatch, handle,
  receive,
}
use secure_person2person_p2p.Server.Answers.{
  Adds, Quiet, Tells, Quiet-query, Adds-stop, Adds-go_wrong, Adds-if, Tells-emit, Adds-bind,
  Adds-bind-Quiet, answer_rules,
}

-- The thread goes on after exactly one answer, and leaves after one at most.
abbrev pub Answered : Next → ℕ → Type 0
Answered (again u) n = n ≡ 1
Answered leaves n = n ≤ 1

module _ {Table D Key : Type 0} (st : Storage Table) (num : Double D) (ssl : OpenSsl Key)
    (private_key : Bytes) where
  pub Tells-reply : (fd : ℤ) (response : Bytes) → Tells (reply st num ssl private_key fd response)
  unfolding reply
  Tells-reply fd response = by_sent (send_p3 ssl (c_str response) private_key private)
    where
      by_sent :
          (s : Sent)
          → Tells (elim s [
            | Sent.sent frame ↦ emit {Table = Table} (sends fd frame)
            | Sent.exits ↦ stop
            | Sent.crashes ↦ go_wrong
          ])
      by_sent (Sent.sent frame) = Tells-emit fd frame
      by_sent Sent.exits = Adds-stop _ 1
      by_sent Sent.crashes = Adds-go_wrong _ 1

  pub Quiet-system_info : (u : Bytes) → Quiet (system_info st num ssl private_key u)
  unfolding system_info
  Quiet-system_info u = search answer_rules depth 9

  pub Quiet-sign_off : (peer : Peer) (u : Bytes) → Quiet (sign_off st num ssl private_key peer u)
  unfolding sign_off
  Quiet-sign_off peer u = search answer_rules depth 9

  pub Tells-serve_register :
      (peer : Peer) (args : List Bytes) → Tells (serve_register st num ssl private_key peer args)
  unfolding serve_register
  Tells-serve_register peer args = search (answer_rules, Tells-reply)

  pub Tells-welcome : (peer : Peer) (u : Bytes) → Tells (welcome st num ssl private_key peer u)
  unfolding welcome
  Tells-welcome peer u = search (answer_rules, Quiet-system_info, Tells-reply) depth 9

  pub Tells-answer_login :
      (peer : Peer) (u name : Bytes) (status : ℤ)
      → Tells (answer_login st num ssl private_key peer u name status)
  unfolding answer_login
  Tells-answer_login peer u name status = search (answer_rules, Tells-welcome, Tells-reply)

  pub Tells-serve_login :
      (peer : Peer) (u : Bytes) (args : List Bytes)
      → Tells (serve_login st num ssl private_key peer u args)
  unfolding serve_login
  Tells-serve_login peer u args = search (answer_rules, Tells-answer_login) depth 7

  pub Tells-serve_list :
      (peer : Peer) (u : Bytes) → Tells (serve_list st num ssl private_key peer u)
  unfolding serve_list answer_list
  Tells-serve_list peer u = search (answer_rules, Quiet-system_info, Tells-reply) depth 7

  pub Tells-serve_transaction :
      (args : List Bytes) → Tells (serve_transaction st num ssl private_key args)
  unfolding serve_transaction
  Tells-serve_transaction args = search (answer_rules, Tells-reply) depth 14

  pub Tells-serve_exit :
      (peer : Peer) (u : Bytes) → Tells (serve_exit st num ssl private_key peer u)
  unfolding serve_exit
  Tells-serve_exit peer u = search (answer_rules, Tells-reply, Quiet-sign_off) depth 7

  pub Answered-bind :
      {A : Type 0} (m : M Table A) (g : A → Next)
      → Tells m
      → ((a : A) → Answered (g a) 1)
      → Adds Answered 1 (m >>= λ a. pure (g a))
  unfolding ◌>>=◌
  Answered-bind m g h i =
      Adds-bind (λ x k. (k ≡ 0) × Answered x 1) Answered 1 0 1
        (λ b k e. subst (λ z. Answered b (1 + z)) (sym e.0) e.1) (omega arith) m (λ a. pure (g a)) h
        (λ a. record { at = λ w. ([], sym (append-nil _), tt, (refl, i a)) })

  pub Answered-dispatch :
      (peer : Peer) (u : Bytes) (cmd : CmdType) (args : List Bytes)
      → Adds Answered 1 (dispatch st num ssl private_key peer u cmd args)
  unfolding dispatch
  Answered-dispatch peer u register args =
      Answered-bind _ (λ x. again u) (Tells-serve_register peer args) (λ x. refl)
  Answered-dispatch peer u login args =
      Answered-bind _ again (Tells-serve_login peer u args) (λ x. refl)
  Answered-dispatch peer u CmdType.list args =
      Answered-bind _ (λ x. again u) (Tells-serve_list peer u) (λ x. refl)
  Answered-dispatch peer u transaction args =
      Answered-bind _ (λ x. again u) (Tells-serve_transaction args) (λ x. refl)
  Answered-dispatch peer u exit args =
      Answered-bind _ (λ x. leaves) (Tells-serve_exit peer u) (λ x. omega arith)
  Answered-dispatch peer u err args = Answered-bind _ (λ x. again u) (Tells-reply _ _) (λ x. refl)

  pub Answered-leaves : Adds {Table = Table} Answered 1 (pure leaves)
  unfolding ◌>>=◌
  Answered-leaves = record { at = λ w. ([], sym (append-nil _), tt, omega arith) }

  pub Answered-handle :
      (peer : Peer) (u : Bytes) (n : ℤ) (raw : Bytes)
      → Adds Answered 1 (handle st num ssl private_key peer u n raw)
  unfolding handle
  Answered-handle peer u n raw =
      Adds-if Answered 1 _ _ _
        (Adds-bind-Quiet _ _ _ _ (Quiet-query _)
          (λ x. Adds-bind-Quiet _ _ _ _ (Quiet-sign_off peer u) (λ y. Answered-leaves)))
        (Answered-dispatch peer u (parse_command raw).0 (parse_command raw).1)

  pub Answered-receive :
      (peer : Peer) (u : Bytes) (r : Receipt)
      → Adds Answered 1 (receive st num ssl private_key peer u r)
  unfolding receive
  Answered-receive peer u r =
      by_received (recv_p3 ssl r.rcv_byte r.bytes r.stale private_key private)
    where
      by_received :
          (x : Received)
          → Adds Answered 1 (elim x [
            | Received.received n raw ↦ handle st num ssl private_key peer u n raw
            | Received.exits ↦ stop
            | Received.crashes ↦ go_wrong
          ])
      by_received (Received.received n raw) = Answered-handle peer u n raw
      by_received Received.exits = Adds-stop _ 1
      by_received Received.crashes = Adds-go_wrong _ 1
