-- ===== src/Server/Answers.antt =====
-- How many frames an action of the server sends: a rule for each way to build one.
pub mod Round
pub mod Loop
use secure_person2person_p2p.Base.{
  ℕ, ◌+◌, ◌≤◌, ◌≡◌, refl, sym, ap, ◌∙◌, subst, Bool, true, false, List, [], ◌∷◌, ◌++◌, append_assoc,
  append-nil, Option, none, some, if◌then◌else◌, All, All-append, length, length-append, Bytes, ℤ,
  arith,
}
use secure_person2person_p2p.Text.Number.{Except, ok, throw}
use secure_person2person_p2p.Process.{Result, done, threw, exited, undefined, waits}
use secure_person2person_p2p.Server.State.{
  Event, sends, closes, World, M, ◌>>=◌, pure, stop, go_wrong, query, or_undefined, or_throw, gets,
  set_client_fds, emit,
}

abbrev pub IsFrame : Event → Type 0
IsFrame (sends fd frame) = Unit
IsFrame (closes fd) = ⊥

-- What a number has to satisfy where an action ends with a result, and at most `bound` otherwise.
abbrev pub Count : {A : Type 0} → (A → ℕ → Type 0) → ℕ → Result A → ℕ → Type 0
Count C bound (done a) n = C a n
Count C bound (threw e) n = n ≤ bound
Count C bound (exited s) n = n ≤ bound
Count C bound undefined n = n ≤ bound
Count C bound waits n = n ≤ bound

-- Only frames are added to the events, and their number is as it has to be.
abbrev pub Added :
    {Table A : Type 0} → (A → ℕ → Type 0) → ℕ → List Event → Result A × World Table → Type 0
Added C bound events (r, w) =
    (new : List Event) × (w.events ≡ events ++ new) × All IsFrame new × Count C bound r (length new)

pub record Adds {Table A : Type 0} (C : A → ℕ → Type 0) (bound : ℕ) (m : M Table A) : Type 0 where
  pub at : (w : World Table) → Added C bound w.events (m w)

abbrev pub Exactly : {A : Type 0} → ℕ → A → ℕ → Type 0
Exactly n a k = k ≡ n

-- An action that sends nothing, and one that sends one frame.
abbrev pub Quiet : {Table A : Type 0} → M Table A → Type 0
Quiet m = Adds (Exactly 0) 0 m

abbrev pub Tells : {Table A : Type 0} → M Table A → Type 0
Tells m = Adds (Exactly 1) 1 m

module _ {Table A : Type 0} where
  pub Quiet-pure : (a : A) → Quiet {Table = Table} (pure a)
  unfolding ◌>>=◌
  Quiet-pure a = record { at = λ w. ([], sym (append-nil _), tt, refl) }

  pub Quiet-query : (f : Table → Table × A) → Quiet (query f)
  unfolding ◌>>=◌
  Quiet-query f = record { at = λ w. ([], sym (append-nil _), tt, refl) }

  pub Adds-stop : (C : A → ℕ → Type 0) (n : ℕ) → Adds {Table = Table} C n stop
  unfolding ◌>>=◌
  Adds-stop C n = record { at = λ w. ([], sym (append-nil _), tt, omega arith) }

  pub Adds-go_wrong : (C : A → ℕ → Type 0) (n : ℕ) → Adds {Table = Table} C n go_wrong
  unfolding ◌>>=◌
  Adds-go_wrong C n = record { at = λ w. ([], sym (append-nil _), tt, omega arith) }

  pub Quiet-or_undefined : (o : Option A) → Quiet {Table = Table} (or_undefined o)
  unfolding ◌>>=◌
  Quiet-or_undefined none = record { at = λ w. ([], sym (append-nil _), tt, omega arith) }
  Quiet-or_undefined (some a) = record { at = λ w. ([], sym (append-nil _), tt, refl) }

  pub Quiet-or_throw : (e : Except A) → Quiet {Table = Table} (or_throw e)
  unfolding ◌>>=◌
  Quiet-or_throw (ok a) = record { at = λ w. ([], sym (append-nil _), tt, refl) }
  Quiet-or_throw (throw x) = record { at = λ w. ([], sym (append-nil _), tt, omega arith) }

  pub Quiet-gets : (f : World Table → A) → Quiet (gets f)
  unfolding ◌>>=◌
  Quiet-gets f = record { at = λ w. ([], sym (append-nil _), tt, refl) }

  pub Adds-if :
      (C : A → ℕ → Type 0) (n : ℕ) (b : Bool) (m k : M Table A)
      → Adds C n m
      → Adds C n k
      → Adds C n (if b then m else k)
  Adds-if C n true m k h i = h
  Adds-if C n false m k h i = i

module _ {Table : Type 0} where
  pub Quiet-set_client_fds :
      (fds : List (Bytes × Option ℤ)) → Quiet {Table = Table} (set_client_fds fds)
  unfolding ◌>>=◌
  Quiet-set_client_fds fds = record { at = λ w. ([], sym (append-nil _), tt, refl) }

  pub Tells-emit : (fd : ℤ) (frame : Bytes) → Tells {Table = Table} (emit (sends fd frame))
  unfolding ◌>>=◌
  Tells-emit fd frame = record { at = λ w. (sends fd frame ∷ [], refl, (tt, tt), refl) }

module _ {B : Type 0} (C C' : B → ℕ → Type 0) (j n bound : ℕ)
    (shift : (b : B) (k : ℕ) → C b k → C' b (j + k)) (room : j + n ≤ bound) where
  pub Count-shift : (r : Result B) (k : ℕ) → Count C n r k → Count C' bound r (j + k)
  Count-shift (done b) k h = shift b k h
  Count-shift (threw e) k h = omega (arith, h, room)
  Count-shift (exited s) k h = omega (arith, h, room)
  Count-shift undefined k h = omega (arith, h, room)
  Count-shift waits k h = omega (arith, h, room)

  -- What the rest of a block adds behind what its first action added.
  pub Added-behind :
      {Table : Type 0} (events first : List Event) (v : World Table) (x : Result B × World Table)
      → v.events ≡ events ++ first
      → All IsFrame first
      → length first ≡ j
      → Added C n v.events x
      → Added C' bound events x
  Added-behind events first v x e h l (new, i, k, c) = (
    first ++ new,
    i ∙ ap (λ z. z ++ new) e ∙ append_assoc events first new,
    All-append _ first new h k,
    subst (Count C' bound x.0) (sym (length-append first new ∙ ap (λ z. z + length new) l))
        (Count-shift x.0 (length new) c),
  )

  -- The rest of a block, from how its first action ended.
  pub Added-rest :
      {Table A : Type 0} (f : A → M Table B)
      → ((a : A) → Adds C n (f a))
      → (events first : List Event) (r : Result A) (w v : World Table) → v.events ≡ events ++ first
      → All IsFrame first
      → Count (Exactly j) j r (length first)
      → Added C' bound events (((λ (z : World Table). (r, v)) >>= f) w)
  unfolding ◌>>=◌
  Added-rest f g events first (done a) w v e h l =
      Added-behind events first v (f a v) e h l ((g a).at v)
  Added-rest f g events first (threw x) w v e h l = (first, e, h, omega (arith, l, room))
  Added-rest f g events first (exited s) w v e h l = (first, e, h, omega (arith, l, room))
  Added-rest f g events first undefined w v e h l = (first, e, h, omega (arith, l, room))
  Added-rest f g events first waits w v e h l = (first, e, h, omega (arith, l, room))

  pub Adds-bind :
      {Table A : Type 0} (m : M Table A) (f : A → M Table B)
      → Adds (Exactly j) j m
      → ((a : A) → Adds C n (f a))
      → Adds C' bound (m >>= f)
  unfolding ◌>>=◌
  Adds-bind m f h g = record {
    at = λ w. let (new, e, k, c) = h.at w in Added-rest f g w.events new (m w).0 w (m w).1 e k c;
  }

module _ {Table A B : Type 0} where
  pub Adds-bind-Quiet :
      (C : B → ℕ → Type 0) (n : ℕ) (m : M Table A) (f : A → M Table B)
      → Quiet m
      → ((a : A) → Adds C n (f a))
      → Adds C n (m >>= f)
  Adds-bind-Quiet C n = Adds-bind C C 0 n n (λ b k h. subst (C b) (omega arith) h) (omega arith)

  pub Tells-bind :
      (m : M Table A) (f : A → M Table B) → Tells m → ((a : A) → Quiet (f a)) → Tells (m >>= f)
  Tells-bind = Adds-bind (Exactly 0) (Exactly 1) 1 0 1 (λ b k h. omega (arith, h)) (omega arith)

pub ruleset answer_rules = (
  Quiet-pure, Quiet-query, Quiet-or_undefined, Quiet-or_throw, Quiet-gets, Quiet-set_client_fds,
  Adds-if, Adds-bind-Quiet, Tells-bind,
)
