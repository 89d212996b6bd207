-- ===== src/Server/Answers/Loop.antt =====
-- The answers of the loop of `process_request`.
use secure_person2person_p2p.Base.{
  ℕ, suc, ◌≤◌, ◌≡◌, refl, sym, ap, ◌∙◌, Bool-cases, inl, inr, eq_ℤ, ◌||◌, List, [], ◌∷◌, ◌++◌,
  append_assoc, append-nil, All, All-append, length, length-append, Bytes, pos, arith,
}
use secure_person2person_p2p.Database.Storage.{Storage}
use secure_person2person_p2p.Database.Amount.{Double}
use secure_person2person_p2p.Util.Rsa.{OpenSsl}
use secure_person2person_p2p.Process.{Result, done, threw, exited, undefined, waits}
use secure_person2person_p2p.Server.State.{Event, closes, World, ◌>>=◌, ◌>>◌, pure}
use secure_person2person_p2p.Server.Handler.{
  Peer, Receipt, Next, again, leaves, receive, drop_connection, serve,
}
use secure_person2person_p2p.Server.Answers.{IsFrame, Count}
use secure_person2person_p2p.Server.Answers.Round.{Answered, Answered-receive}

-- What a thread that has received `n` messages has told the kernel, by how it stands.
abbrev pub Outcome : Peer → ℕ → Result Next → List Event → Type 0
Outcome peer n (done (again u)) new = All IsFrame new × (length new ≡ n)
Outcome peer n (done leaves) new =
    (frames : List Event) × (new ≡ frames ++ closes peer.connection ∷ [])
    × All IsFrame frames
    × (length frames ≤ n)
Outcome peer n (threw e) new = All IsFrame new × (length new ≤ n)
Outcome peer n (exited s) new = All IsFrame new × (length new ≤ n)
Outcome peer n undefined new = All IsFrame new × (length new ≤ n)
Outcome peer n waits new = All IsFrame new × (length new ≤ n)

abbrev pub IsServed : {Table : Type 0} → Peer → ℕ → List Event → Result Next × World Table → Type 0
IsServed peer n events (r, w) =
    (new : List Event) × (w.events ≡ events ++ new) × Outcome peer n r new

Outcome-behind :
    (peer : Peer) (n : ℕ) (r : Result Next) (first new : List Event)
    → All IsFrame first
    → length first ≡ 1
    → Outcome peer n r new
    → Outcome peer (suc n) r (first ++ new)
Outcome-behind peer n (done (again u)) first new h l (k, e) =
    (All-append _ first new h k, omega (arith, length-append first new, l, e))
Outcome-behind peer n (done leaves) first new h l (frames, e, k, b) = (
  first ++ frames,
  ap (λ z. first ++ z) e ∙ sym (append_assoc first frames _),
  All-append _ first frames h k,
  omega (arith, length-append first frames, l, b),
)
Outcome-behind peer n (threw x) first new h l (k, b) =
    (All-append _ first new h k, omega (arith, length-append first new, l, b))
Outcome-behind peer n (exited s) first new h l (k, b) =
    (All-append _ first new h k, omega (arith, length-append first new, l, b))
Outcome-behind peer n undefined first new h l (k, b) =
    (All-append _ first new h k, omega (arith, length-append first new, l, b))
Outcome-behind peer n waits first new h l (k, b) =
    (All-append _ first new h k, omega (arith, length-append first new, l, b))

module _ {Table D Key : Type 0} (st : Storage Table) (num : Double D) (ssl : OpenSsl Key)
    (private_key : Bytes) where
  drop-IsServed :
      (peer : Peer) (n : ℕ) (events first : List Event) (w : World Table)
      → w.events ≡ events ++ first
      → All IsFrame first
      → length first ≤ n
      → IsServed peer n events ((drop_connection st num ssl private_key peer >> pure leaves) w)
  unfolding drop_connection ◌>>=◌
  drop-IsServed peer n events first w e h l = (
    _,
    ap (λ z. z ++ closes peer.connection ∷ []) e ∙ append_assoc events first _,
    (first, refl, h, l),
  )

  -- The rest of the loop, from how a round ended.
  IsServed-rest :
      (peer : Peer) (rs : List Receipt) (events first : List Event) (r : Result Next)
      (w v : World Table)
      → ((u : Bytes) (z : World Table)
          → IsServed peer (length rs) z.events (serve st num ssl private_key peer u rs z))
      → v.events ≡ events ++ first
      → All IsFrame first
      → Count Answered 1 r (length first)
      → IsServed peer (suc (length rs)) events (
          ((λ (z : World Table). (r, v)) >>= λ next. elim next [
            | again name ↦ serve st num ssl private_key peer name rs
            | leaves ↦ drop_connection st num ssl private_key peer >> pure leaves
          ])
            w)
  unfolding ◌>>=◌
  IsServed-rest peer rs events first (done (again u)) w v ih e h l =
      let (new, k, o) = ih u v in
      (
        first ++ new,
        k ∙ ap (λ z. z ++ new) e ∙ append_assoc events first new,
        Outcome-behind peer (length rs) _ first new h l o,
      )
  IsServed-rest peer rs events first (done leaves) w v ih e h l =
      drop-IsServed peer (suc (length rs)) events first v e h (omega (arith, l))
  IsServed-rest peer rs events first (threw x) w v ih e h l = (first, e, (h, omega (arith, l)))
  IsServed-rest peer rs events first (exited s) w v ih e h l = (first, e, (h, omega (arith, l)))
  IsServed-rest peer rs events first undefined w v ih e h l = (first, e, (h, omega (arith, l)))
  IsServed-rest peer rs events first waits w v ih e h l = (first, e, (h, omega (arith, l)))

  -- Whatever the state of the server and whatever a thread receives: while the thread goes on, it has
  -- sent exactly one frame for each message that it has received, and told the kernel nothing else;
  -- once it leaves its loop, at most one for each, and as the last thing it has closed its own
  -- connection; and if an exception, an exit of the process or undefined behaviour has ended it, at
  -- most one for each, and it has closed nothing.
  pub serve-IsServed :
      (peer : Peer) (u : Bytes) (rs : List Receipt) (w : World Table)
      → IsServed peer (length rs) w.events (serve st num ssl private_key peer u rs w)
  unfolding serve ◌>>=◌
  serve-IsServed peer u [] w =
      elim (Bool-cases (eq_ℤ peer.connection (pos 0) || w.termination_flag)) [
        | inl over ↦
            rw over (drop-IsServed peer 0 w.events [] w (sym (append-nil _)) tt (omega arith))
        | inr on ↦ rw on ([], sym (append-nil _), (tt, refl))
      ]
  serve-IsServed peer u (r ∷ rs) w =
      elim (Bool-cases (eq_ℤ peer.connection (pos 0) || w.termination_flag)) [
        | inl over ↦ rw over (
            drop-IsServed peer (suc (length rs)) w.events [] w (sym (append-nil _)) tt
              (omega arith))
        | inr on ↦
            let (first, e, h, c) = (Answered-receive st num ssl private_key peer u r).at w in
            let x = receive st num ssl private_key peer u r w in
            rw on (
              IsServed-rest peer rs w.events first x.0 w x.1 (λ u z. serve-IsServed peer u rs z) e h
                c)
      ]
