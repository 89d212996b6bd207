-- ===== src/Protocol/Payment/Round.antt =====
-- The thread's round for a transfer.
use secure_person2person_p2p.Base.{
  ◌≡◌, refl, ap, ◌∙◌, false, Bool-cases, [], ◌∷◌, ◌++◌, inl, inr, some, Bytes, bytes_eq,
  bytes_eq_refl, bytes_eq-append, codes, ℤ, eq_ℤ,
}
use secure_person2person_p2p.Text.Number.{ok, to_string}
use secure_person2person_p2p.Text.Split.Tokens.{IsToken}
use secure_person2person_p2p.Database.Storage.{Row, Storage, IsStorage}
use secure_person2person_p2p.Database.Amount.{Double}
use secure_person2person_p2p.Database.Operations.{user_transaction, user_info, minus_one}
use secure_person2person_p2p.Database.Spec
use secure_person2person_p2p.Database.Spec.{IsValid, bank, assign}
use secure_person2person_p2p.Database.Tables.{load-username}
use secure_person2person_p2p.Database.Refinement.{user_info_lem}
use secure_person2person_p2p.Util.Rsa.{OpenSsl}
use secure_person2person_p2p.Process.{done}
use secure_person2person_p2p.Server.State.{
  World, gets, query, or_throw, or_undefined, find_client, bind_done, query_lem, pure_lem,
  or_throw_lem, or_undefined_lem, gets_lem,
}
use secure_person2person_p2p.Server.Handler.{
  Peer, again, reply, transaction_response, serve_transaction, dispatch, handle,
}
use secure_person2person_p2p.Client.Requests.{transact_message}
use secure_person2person_p2p.Client.Transfers.{pay}
use secure_person2person_p2p.Client.Messages.{parse_command-transact_message}
use secure_person2person_p2p.Protocol.Wire.{told}

module _ {Table D Key : Type 0} {st : Storage Table} (law : IsStorage st) (num : Double D)
    (ssl : OpenSsl Key) (private_key : Bytes) where
  -- The handler, where the calls of the database end as they should.
  serve_transaction_lem :
      (snd rcv text c : Bytes) (pay : D) (status fd : ℤ) (t : Table) (r : Row) (w : World Table)
      → num.stod text ≡ ok pay
      → user_transaction st num w.db snd rcv pay ≡ (t, status)
      → IsValid law t
      → bank law t snd ≡ some r
      → find_client snd w.client_fds ≡ some fd
      → ((v : World Table)
          → reply st num ssl private_key fd (transaction_response status) v
            ≡ (done tt, told v fd c))
      → serve_transaction st num ssl private_key (snd ∷ (text ∷ (rcv ∷ []))) w
        ≡ (done tt, told (record w { db = t }) fd c)
  unfolding serve_transaction
  serve_transaction_lem snd rcv text c pay status fd t r w p q v e f reply_told =
      let after : World Table = record w { db = t } in
      bind_done (or_throw (num.stod text)) _ w pay w (or_throw_lem _ pay w p)
      ∙ bind_done (query (λ t. user_transaction st num t snd rcv pay)) _ w status after
          (query_lem _ w ∙ ap (λ (x : Table × ℤ). (done x.1, record w { db = x.0 })) q)
      ∙ bind_done (query (λ t. user_info st t snd)) _ after (some (law.load r)) after (
          query_lem _ after
          ∙ ap (λ x. (done x.1, record w { db = x.0 })) (user_info_lem law t snd v ∙ rw e))
      ∙ bind_done (or_undefined (some (law.load r))) _ after (law.load r) after
          (or_undefined_lem _ _ after refl)
      ∙ bind_done (gets (λ w. w.client_fds)) _ after w.client_fds after (gets_lem _ after)
      ∙ bind_done (or_undefined (find_client (law.load r).username w.client_fds)) _ after fd after (
          or_undefined_lem _ fd after
            (ap (λ u. find_client u w.client_fds) (load-username law t snd r e) ∙ f))
      ∙ reply_told after

  -- The round of the thread, with the message of the sender's client.
  pub handle-transact_lem :
      (peer : Peer) (u : Bytes) (n : ℤ) (snd rcv c : Bytes) (a : ℤ) (pay : D) (status fd : ℤ)
      (t : Table) (r : Row) (w : World Table)
      → eq_ℤ n minus_one ≡ false
      → IsToken b'#' snd
      → IsToken b'#' rcv
      → num.stod (to_string a) ≡ ok pay
      → user_transaction st num w.db snd rcv pay ≡ (t, status)
      → IsValid law t
      → bank law t snd ≡ some r
      → find_client snd w.client_fds ≡ some fd
      → ((v : World Table)
          → reply st num ssl private_key fd (transaction_response status) v
            ≡ (done tt, told v fd c))
      → handle st num ssl private_key peer u n (transact_message snd a rcv) w
        ≡ (done (again u), told (record w { db = t }) fd c)
  unfolding handle dispatch
  handle-transact_lem peer u n snd rcv c a pay status fd t r w e h k read q v known f told_lem =
      rw
        (
          e,
          bytes_eq-append snd (codes "#" ++ (to_string a ++ (codes "#" ++ rcv))) h.0,
          parse_command-transact_message snd a rcv h k,
          handle,
        )
        (bind_done (serve_transaction st num ssl private_key (snd ∷ (to_string a ∷ (rcv ∷ [])))) _ w
            tt _
            (serve_transaction_lem snd rcv (to_string a) c pay status fd t r w read q v known f
              told_lem)
          ∙ pure_lem _ _)

-- The sender's account is still there after any transfer.
pub sender-some :
    (b : Spec.Bank) (snd rcv : Bytes) (s r : Row)
    → (x : Row) × (assign (assign b snd s) rcv r snd ≡ some x)
sender-some b snd rcv s r = elim (Bool-cases (bytes_eq rcv snd)) [
  | inl e ↦ (r, rw e)
  | inr e ↦ (s, rw (e, bytes_eq_refl snd))
]
