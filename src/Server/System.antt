-- ===== src/Server/System.antt =====
-- The server with its workers: the connections that `main` accepts, and the threads that serve them.
use secure_person2person_p2p.Base.{
  Bool, true, false, ◌||◌, eq_ℤ, ℕ, ◌+◌, ◌<◌, ◌≡◌, List, [], ◌∷◌, ◌++◌, Bytes, ℤ, pos, ◌+ℤ◌, length,
  InInt,
}
use secure_person2person_p2p.Text.Number.{Exception}
use secure_person2person_p2p.Database.Storage.{Storage, IsStorage}
use secure_person2person_p2p.Database.Amount.{Double, IsDouble}
use secure_person2person_p2p.Database.Growth.{
  IsSane, user_register-IsSane, user_login-IsSane, user_logout-IsSane, user_info-idle, list-idle,
  user_num-idle, user_list_info-idle, user_transaction-IsSane,
}
use secure_person2person_p2p.Util.Rsa.{OpenSsl}
use secure_person2person_p2p.Server.State.{World, forgotten, ◌>>=◌, ◌>>◌, M, arrive, emit, sends}
use secure_person2person_p2p.Process.{Result, done, threw}
use secure_person2person_p2p.Server.Handler.{
  Peer, Receipt, Next, again, leaves, receive, drop_connection,
}
use secure_person2person_p2p.Server.Effects.{Stable}

-- The amounts that the client sends.
abbrev pub Whole : {D : Type 0} → Double D → D → Type 0
Whole num pay = (a : ℤ) × InInt a × (pay ≡ num.of_int a)

module _ {Table D : Type 0} {st : Storage Table} (law : IsStorage st) {num : Double D}
    (ieee : IsDouble num) where
  pub IsSane-Stable : Stable st num (λ w. IsSane law w.db) (Whole num)
  unfolding ◌>>=◌
  IsSane-Stable = record {
    emit_keeps = λ e. record { at = λ w h. h };
    fds_keeps = λ fds. record { at = λ w h. h };
    register_keeps = λ u ip. record { at = λ w h. user_register-IsSane law w.db u ip h };
    login_keeps = λ u ip p q fd. record { at = λ w h. user_login-IsSane law w.db u ip p q fd h };
    logout_keeps = λ ip p. record { at = λ w h. user_logout-IsSane law w.db ip p h };
    info_keeps = λ u. record { at = λ w h. rw (user_info-idle law w.db u h.valid) h };
    list_keeps = λ online. record { at = λ w h. rw (list-idle law w.db online h.valid) h };
    num_keeps = λ online. record { at = λ w h. rw (user_num-idle law w.db online h.valid) h };
    text_keeps = record { at = λ w h. rw (user_list_info-idle law w.db h.valid) h };
    transaction_keeps = λ snd rcv pay a. record {
      at = λ w h. rw (a.2) (user_transaction-IsSane law ieee w.db snd rcv a.0 a.1 h);
    };
  }

-- What `main` counts when `accept` returns.
abbrev pub accepted : {Table : Type 0} → World Table → World Table
accepted w = record w { tmp_current_user = w.tmp_current_user +ℤ pos 1 }

-- A connection that a thread serves, and the name that the thread holds.
pub record Thread : Type 0 where
  pub peer : Peer
  pub username : Bytes

-- The connections that wait for a worker, the threads, and how many threads an exception has ended.
pub record System (Table : Type 0) : Type 0 where
  pub world : World Table
  pub waiting : List Peer
  pub running : List Thread
  pub broken : ℕ

-- The server when `main` comes to its loop.
abbrev pub start : {Table : Type 0} → Table → System Table
start t = record {
  world = record {
    db = t;
    client_fds = [];
    current_user = pos 0;
    tmp_current_user = pos 0;
    termination_flag = false;
    events = [];
  };
  waiting = [];
  running = [];
  broken = 0;
}

-- The test of the loop.
abbrev pub stopped : {Table : Type 0} → Thread → World Table → Bool
stopped t w = eq_ℤ t.peer.connection (pos 0) || w.termination_flag

-- `Fine` is on what is received. A round of the loop of `process_request` is one step.
module _ {Table D Key : Type 0} (st : Storage Table) (num : Double D) (ssl : OpenSsl Key)
    (public_key private_key : Bytes) (limit : ℕ) (Fine : Receipt → Type 0) where
  -- The start of `process_request`.
  abbrev pub opening : Peer → M Table (Unit {0})
  opening peer = arrive >> emit (sends peer.connection public_key)

  abbrev pub round : Thread → Receipt → World Table → Result Next × World Table
  round t r = receive st num ssl private_key t.peer t.username r

  abbrev pub closing : Thread → World Table → World Table
  closing t w = (drop_connection st num ssl private_key t.peer w).1

  pub data Step (s : System Table) : System Table → Type 0 where
    accepts :
        (peer : Peer)
        → Step s (record s { world = accepted s.world; waiting = s.waiting ++ peer ∷ [] })
    starts :
        (peer : Peer) (rest : List Peer)
        → s.waiting ≡ peer ∷ rest
        → length s.running < limit
        → Step s (record s {
          world = (opening peer s.world).1;
          waiting = rest;
          running = s.running ++ record { peer = peer; username = [] } ∷ [];
        })
    goes_on :
        (before after : List Thread) (t : Thread) (r : Receipt) (name : Bytes)
        → s.running ≡ before ++ (t ∷ after)
        → stopped t s.world ≡ false
        → Fine r
        → (round t r s.world).0 ≡ done (again name)
        → Step s (record s {
          world = (round t r s.world).1;
          running = before ++ (record { peer = t.peer; username = name } ∷ after);
        })
    ends :
        (before after : List Thread) (t : Thread) (r : Receipt)
        → s.running ≡ before ++ (t ∷ after)
        → stopped t s.world ≡ false
        → Fine r
        → (round t r s.world).0 ≡ done leaves
        → Step s (record s { world = closing t (round t r s.world).1; running = before ++ after })
    stops :
        (before after : List Thread) (t : Thread)
        → s.running ≡ before ++ (t ∷ after)
        → stopped t s.world ≡ true
        → Step s (record s { world = closing t s.world; running = before ++ after })
    breaks :
        (before after : List Thread) (t : Thread) (r : Receipt) (e : Exception)
        → s.running ≡ before ++ (t ∷ after)
        → stopped t s.world ≡ false
        → Fine r
        → (round t r s.world).0 ≡ threw e
        → Step s (record s {
          world = forgotten t.peer.connection (round t r s.world).1;
          running = before ++ after;
          broken = s.broken + 1;
        })

  pub data Reach (s : System Table) : System Table → Type 0 where
    here : Reach s s
    next : {t u : System Table} → Reach s t → Step t u → Reach s u
