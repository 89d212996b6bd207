-- ===== src/Server/Payments.antt =====
-- A transfer that reaches the server over some connection.
use secure_person2person_p2p.Base.{
  ◌*◌, ◌≤◌, ◌≡◌, refl, ◌∙◌, inl, inr, false, List, [], ◌∷◌, ◌++◌, length, Bytes, bytes_eq-append,
  codes, ℤ, eq_ℤ, int_max, InInt, Option-cases,
}
use secure_person2person_p2p.Text.Number.{to_string}
use secure_person2person_p2p.Text.Split.Tokens.{IsToken}
use secure_person2person_p2p.Database.Storage.{Storage, IsStorage}
use secure_person2person_p2p.Database.Amount.{Double, IsDouble}
use secure_person2person_p2p.Database.Operations.{user_transaction, minus_one}
use secure_person2person_p2p.Database.Spec.{IsValid, bank}
use secure_person2person_p2p.Database.Refinement.{user_info_lem}
use secure_person2person_p2p.Database.Validity.{IsSound}
use secure_person2person_p2p.Database.Conservation.{user_transaction-IsSound}
use secure_person2person_p2p.Util.Rsa.{OpenSsl}
use secure_person2person_p2p.Server.Commands.{transaction}
use secure_person2person_p2p.Server.State.{World, ◌>>=◌, find_client}
use secure_person2person_p2p.Server.Handler.{Peer, serve_transaction, dispatch, handle}
use secure_person2person_p2p.Server.Effects.{Keeps-reply_from, Keeps-pure, rest_keeps}
use secure_person2person_p2p.Client.Requests.{transact_message}
use secure_person2person_p2p.Client.Messages.{parse_command-transact_message}

module _ {Table D Key : Type 0} {st : Storage Table} (law : IsStorage st) {num : Double D}
    (ieee : IsDouble num) (ssl : OpenSsl Key) (private_key : Bytes) where
  -- The answer to the sender changes no row, however it ends.
  serve_transaction-db :
      (snd rcv : Bytes) (a : ℤ) (w : World Table)
      → InInt a
      → IsValid law (user_transaction st num w.db snd rcv (num.of_int a)).0
      → (serve_transaction st num ssl private_key (snd ∷ (to_string a ∷ (rcv ∷ []))) w).1.db
        ≡ (user_transaction st num w.db snd rcv (num.of_int a)).0
  unfolding serve_transaction ◌>>=◌
  serve_transaction-db snd rcv a w i v =
      let t = (user_transaction st num w.db snd rcv (num.of_int a)).0 in
      elim (Option-cases (bank law t snd)) [
        | inl e ↦ rw (ieee.stod_int a i, serve_transaction, user_info_lem law t snd v, e)
        | inr (r, e) ↦ elim (Option-cases (find_client (law.load r).username w.client_fds)) [
          | inl f ↦ rw (ieee.stod_int a i, serve_transaction, user_info_lem law t snd v, e, f)
          | inr (fd, f) ↦
              rw (ieee.stod_int a i, serve_transaction, user_info_lem law t snd v, e, f)
                ((Keeps-reply_from {P = λ x. x.db ≡ t} st num ssl private_key
                    (λ e. record { at = λ x h. h }) fd _).at
                  _ refl)
        ]
      ]

  dispatch-db :
      (peer : Peer) (username : Bytes) (args : List Bytes) (w : World Table)
      → (dispatch st num ssl private_key peer username transaction args w).1.db
        ≡ (serve_transaction st num ssl private_key args w).1.db
  unfolding dispatch
  dispatch-db peer username args w =
      rest_keeps (λ x. x.db ≡ (serve_transaction st num ssl private_key args w).1.db)
        (serve_transaction st num ssl private_key args) _ w (λ u. Keeps-pure _) refl

  -- Where the table is sound and has at most 214748 accounts, and the names are not empty and hold
  -- no `#` and no NUL: the message of a transfer of a whole amount that fits an `int`, received
  -- without an error, has the effect on the table that `user_transaction` has, over whatever
  -- connection it arrives and whoever is logged in there, if anybody, and whether or not the answer
  -- can be sent.
  pub handle-transact_message :
      (peer : Peer) (username : Bytes) (n : ℤ) (snd rcv : Bytes) (a : ℤ) (w : World Table)
      → eq_ℤ n minus_one ≡ false
      → IsToken b'#' snd
      → IsToken b'#' rcv
      → IsSound law w.db
      → 10000 * length (law.rows w.db) ≤ int_max
      → InInt a
      → (handle st num ssl private_key peer username n (transact_message snd a rcv) w).1.db
        ≡ (user_transaction st num w.db snd rcv (num.of_int a)).0
  unfolding handle
  handle-transact_message peer username n snd rcv a w e h k v fits i =
      rw
        (
          e,
          bytes_eq-append snd (codes "#" ++ (to_string a ++ (codes "#" ++ rcv))) h.0,
          parse_command-transact_message snd a rcv h k,
          handle,
        )
        (dispatch-db peer username (snd ∷ (to_string a ∷ (rcv ∷ []))) w
          ∙ serve_transaction-db snd rcv a w i
              (user_transaction-IsSound law ieee w.db snd rcv a v fits i).valid)
