-- ===== src/Server/Threads.antt =====
-- How `process_request` counts the connections.
use secure_person2person_p2p.Base.{
  ◌≡◌, refl, ap, Bool, true, false, List, [], ◌∷◌, if◌then◌else◌, Bytes, bytes_eq, codes, ℤ, pos,
  ◌+ℤ◌, ◌-ℤ◌, eq_ℤ, ◌||◌, Bool-cases, inl, inr, int_laws, pos_part, neg_part,
}
use secure_person2person_p2p.Database.Storage.{Storage}
use secure_person2person_p2p.Database.Amount.{Double}
use secure_person2person_p2p.Util.Rsa.{OpenSsl}
use secure_person2person_p2p.Server.State.{World, scoped, ◌>>=◌, ◌>>◌, pure}
use secure_person2person_p2p.Process.{Result, done, threw, exited, undefined, waits}
use secure_person2person_p2p.Server.Handler.{
  Peer, Receipt, Next, again, leaves, receive, serve, drop_connection, process_request,
}
use secure_person2person_p2p.Server.Effects.{Stable, Keeps-receive}

-- The number of connections at the end of a thread that found `n` of them: `n` again if the thread
-- has ended by itself, and one more if it waits, or has ended in an exception, in `exit(0)` or in
-- undefined behaviour.
abbrev pub Counts : {Table : Type 0} → ℤ → Result Next × World Table → Type 0
Counts n (done leaves, w) = w.current_user ≡ n
Counts n (done (again name), w) = w.current_user ≡ n +ℤ pos 1
Counts n (threw e, w) = w.current_user ≡ n +ℤ pos 1
Counts n (exited k, w) = w.current_user ≡ n +ℤ pos 1
Counts n (undefined, w) = w.current_user ≡ n +ℤ pos 1
Counts n (waits, w) = w.current_user ≡ n +ℤ pos 1

one_less : (m n : ℤ) → m ≡ n +ℤ pos 1 → m -ℤ pos 1 ≡ n
one_less m n e = omega (int_laws, ap pos_part e, ap neg_part e)

-- No handler touches the two counts.
pub counts-Stable :
    {Table D : Type 0} (st : Storage Table) (num : Double D) (Q : ℤ → ℤ → Type 0)
    → Stable st num (λ w. Q w.current_user w.tmp_current_user) (λ pay. Unit {0})
unfolding ◌>>=◌
counts-Stable st num Q = record {
  emit_keeps = λ e. record { at = λ w h. h };
  fds_keeps = λ fds. record { at = λ w h. h };
  register_keeps = λ u ip. record { at = λ w h. h };
  login_keeps = λ u ip p q fd. record { at = λ w h. h };
  logout_keeps = λ ip p. record { at = λ w h. h };
  info_keeps = λ u. record { at = λ w h. h };
  list_keeps = λ online. record { at = λ w h. h };
  num_keeps = λ online. record { at = λ w h. h };
  text_keeps = record { at = λ w h. h };
  transaction_keeps = λ snd rcv pay a. record { at = λ w h. h };
}

module _ {Table D Key : Type 0} (st : Storage Table) (num : Double D) (ssl : OpenSsl Key)
    (private_key : Bytes) where
  dropped :
      (peer : Peer) (n : ℤ) (w : World Table)
      → w.current_user ≡ n +ℤ pos 1
      → Counts n ((drop_connection st num ssl private_key peer >> pure leaves) w)
  unfolding drop_connection ◌>>=◌
  dropped peer n w h = one_less w.current_user n h

  waiting :
      (b : Bool) (peer : Peer) (username : Bytes) (n : ℤ) (w : World Table)
      → w.current_user ≡ n +ℤ pos 1
      → Counts n (
          (if b
              then drop_connection st num ssl private_key peer >> pure leaves
              else pure (again username))
            w)
  waiting true peer username n w h = dropped peer n w h
  waiting false peer username n w h = unfold ◌>>=◌ in h

  -- What follows a round, from how the round ended.
  after_round :
      (peer : Peer) (n : ℤ) (rest : Bytes → World Table → Result Next × World Table)
      → ((name : Bytes) (w : World Table) → w.current_user ≡ n +ℤ pos 1 → Counts n (rest name w))
      → (r : Result Next) (w : World Table) → w.current_user ≡ n +ℤ pos 1
      → Counts n (
          ((λ (v : World Table). (r, w)) >>= λ next. elim next [
            | again name ↦ rest name
            | leaves ↦ drop_connection st num ssl private_key peer >> pure leaves
          ])
            w)
  unfolding ◌>>=◌
  after_round peer n rest ih (done (again name)) w h = ih name w h
  after_round peer n rest ih (done leaves) w h = dropped peer n w h
  after_round peer n rest ih (threw e) w h = h
  after_round peer n rest ih (exited k) w h = h
  after_round peer n rest ih undefined w h = h
  after_round peer n rest ih waits w h = h

  serve-Counts :
      (peer : Peer) (username : Bytes) (rs : List Receipt) (n : ℤ) (w : World Table)
      → w.current_user ≡ n +ℤ pos 1
      → Counts n (serve st num ssl private_key peer username rs w)
  unfolding serve ◌>>=◌
  serve-Counts peer username [] n w h = waiting _ peer username n w h
  serve-Counts peer username (r ∷ rs) n w h =
      elim (Bool-cases (eq_ℤ peer.connection (pos 0) || w.termination_flag)) [
        | inl stopped ↦ rw stopped (dropped peer n w h)
        | inr runs ↦
            let m = receive st num ssl private_key peer username r w in
            let kept =
              Keeps-receive (counts-Stable st num (λ c t. c ≡ n +ℤ pos 1)) ssl private_key peer
                username r (λ k raw e t pay f. tt) in
            rw runs (
              after_round peer n (λ name. serve st num ssl private_key peer name rs)
                (λ name v g. serve-Counts peer name rs n v g) m.0 m.1 (kept.at w h))
      ]

  scoped-Counts :
      (fd n : ℤ) (m : World Table → Result Next × World Table) (w : World Table)
      → Counts n (m w)
      → Counts n (scoped fd m w)
  unfolding scoped
  scoped-Counts fd n m w h = by_result (m w).0 (m w).1 h
    where
      by_result :
          (r : Result Next) (v : World Table)
          → Counts n (r, v)
          → Counts n (scoped fd (λ (x : World Table). (r, v)) w)
      by_result (done a) v k = k
      by_result (threw e) v k = k
      by_result (exited s) v k = k
      by_result undefined v k = k
      by_result waits v k = k

  -- A connection is counted exactly while it is served: whatever is received, a thread that ends by
  -- itself leaves the number of connections as it found it, and one that still waits has added one.
  -- A thread that an exception or undefined behaviour ends, or that ends the server, has added one
  -- and does not take it back.
  pub process_request-Counts :
      (public_key : Bytes) (peer : Peer) (rs : List Receipt) (w : World Table)
      → Counts w.current_user
          (process_request st num ssl private_key public_key (codes "init") peer rs w)
  unfolding process_request ◌>>=◌ bytes_eq
  process_request-Counts public_key peer rs w =
      scoped-Counts peer.connection w.current_user (serve st num ssl private_key peer [] rs) _
        (serve-Counts peer [] rs w.current_user _ refl)
