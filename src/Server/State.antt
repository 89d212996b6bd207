-- ===== src/Server/State.antt =====
-- The server's global variables, the effects of its threads, and what ends a step.
use secure_person2person_p2p.Base.{
  Bool, List, [], ◌∷◌, ◌++◌, Option, none, some, if◌then◌else◌, Bytes, bytes_eq, ℤ, pos, eq_ℤ, ◌≡◌,
  refl, ap, ◌∙◌, false, All, bytes_eq_refl, ◌+ℤ◌, ◌-ℤ◌,
}
use secure_person2person_p2p.Text.Number.{Except, ok, throw}
use secure_person2person_p2p.Process.{Result, done, threw, exited, undefined, waits}

-- What the kernel is told: bytes sent over a connection, and a connection closed.
pub data Event : Type 0 where
  sends : ℤ → Bytes → Event
  closes : ℤ → Event

-- `client_fds` pairs a name with a pointer to the `connection` variable of a thread. The thread never
-- changes the variable, and the pointer is modelled by its value as long as the thread runs; once the
-- thread has ended the pointer dangles, which is `none`.
pub record World (Table : Type 0) : Type 0 where
  pub db : Table
  pub client_fds : List (Bytes × Option ℤ)
  pub current_user : ℤ
  pub tmp_current_user : ℤ
  pub termination_flag : Bool
  pub events : List Event

abbrev pub M : Type 0 → Type 0 → Type 0
M Table A = World Table → Result A × World Table

module _ {Table A : Type 0} where
  pub pure : A → M Table A
  pure a w = (done a, w)

  -- `exit(0)`, and undefined behaviour.
  pub stop : M Table A
  stop w = (exited 0, w)

  pub go_wrong : M Table A
  go_wrong w = (undefined, w)

  -- A call of the database.
  pub query : (Table → Table × A) → M Table A
  query f w = let (t, a) = f w.db in (done a, record w { db = t })

  pub or_undefined : Option A → M Table A
  or_undefined none w = (undefined, w)
  or_undefined (some a) w = (done a, w)

  pub or_throw : Except A → M Table A
  or_throw (ok a) w = (done a, w)
  or_throw (throw e) w = (threw e, w)

  pub gets : (World Table → A) → M Table A
  gets f w = (done (f w), w)

-- The end of the variables of the thread that serves the connection `fd`: the pointers to its
-- `connection` dangle. No two threads that run serve the same connection, which the kernel has open.
abbrev pub dangle : ℤ → Option ℤ → Option ℤ
dangle fd none = none
dangle fd (some connection) = if eq_ℤ connection fd then none else some connection

unfoldable pub forget : ℤ → List (Bytes × Option ℤ) → List (Bytes × Option ℤ)
forget fd [] = []
forget fd ((name, pointer) ∷ fds) = (name, dangle fd pointer) ∷ forget fd fds

abbrev pub forgotten : {Table : Type 0} → ℤ → World Table → World Table
forgotten fd w = record w { client_fds = forget fd w.client_fds }

module _ {Table : Type 0} where
  pub set_client_fds : List (Bytes × Option ℤ) → M Table (Unit {0})
  set_client_fds fds w = (done tt, record w { client_fds = fds })

  -- A connection more, and a connection less.
  pub arrive : M Table (Unit {0})
  arrive w = (done tt, record w { current_user = w.current_user +ℤ pos 1 })

  pub leave : M Table (Unit {0})
  leave w = (
    done tt,
    record w {
      current_user = w.current_user -ℤ pos 1;
      tmp_current_user = w.tmp_current_user -ℤ pos 1;
    },
  )

  pub end_variables : ℤ → M Table (Unit {0})
  end_variables fd w = (done tt, forgotten fd w)

  pub emit : Event → M Table (Unit {0})
  emit e w = (done tt, record w { events = w.events ++ e ∷ [] })

infixl 5 ◌>>=◌ ◌>>◌
-- Opening this opens the actions above too.
unfoldable pub ◌>>=◌ : {Table A B : Type 0} → M Table A → (A → M Table B) → M Table B
unfolding pure stop go_wrong query or_undefined or_throw gets set_client_fds arrive leave
    end_variables emit
◌>>=◌ m f w =
    let (r, w') = m w in
    elim r [
      | done a ↦ f a w'
      | threw e ↦ (threw e, w')
      | exited n ↦ (exited n, w')
      | undefined ↦ (undefined, w')
      | waits ↦ (waits, w')
    ]

abbrev pub ◌>>◌ : {Table A B : Type 0} → M Table A → M Table B → M Table B
m >> k = m >>= λ _. k

-- A thread's function, whose variables end when an exception leaves it.
unfoldable pub scoped : {Table A : Type 0} → ℤ → M Table A → M Table A
scoped fd m w =
    let (r, w') = m w in
    elim r [
      | done a ↦ (done a, w')
      | threw e ↦ (threw e, forgotten fd w')
      | exited n ↦ (exited n, w')
      | undefined ↦ (undefined, w')
      | waits ↦ (waits, w')
    ]

-- The first step of a block.
pub bind_done :
    {Table A B : Type 0} (m : M Table A) (f : A → M Table B) (w : World Table) (a : A)
    (w' : World Table)
    → m w ≡ (done a, w')
    → (m >>= f) w ≡ f a w'
unfolding ◌>>=◌
bind_done {Table} m f w a w' e = ap (λ x. ((λ (v : World Table). x) >>= f) w) e

pub pure_lem : {Table A : Type 0} (a : A) (w : World Table) → pure a w ≡ (done a, w)
unfolding ◌>>=◌
pure_lem a w = refl

pub query_lem :
    {Table A : Type 0} (f : Table → Table × A) (w : World Table)
    → query f w ≡ (done (f w.db).1, record w { db = (f w.db).0 })
unfolding ◌>>=◌
query_lem f w = refl

pub or_throw_lem :
    {Table A : Type 0} (e : Except A) (a : A) (w : World Table)
    → e ≡ ok a
    → or_throw e w ≡ (done a, w)
unfolding ◌>>=◌
or_throw_lem e a w h = rw h

pub or_undefined_lem :
    {Table A : Type 0} (o : Option A) (a : A) (w : World Table)
    → o ≡ some a
    → or_undefined o w ≡ (done a, w)
unfolding ◌>>=◌
or_undefined_lem o a w h = rw h

pub gets_lem :
    {Table A : Type 0} (f : World Table → A) (w : World Table) → gets f w ≡ (done (f w), w)
unfolding ◌>>=◌
gets_lem f w = refl

pub set_client_fds_lem :
    {Table : Type 0} (fds : List (Bytes × Option ℤ)) (w : World Table)
    → set_client_fds fds w ≡ (done tt, record w { client_fds = fds })
unfolding ◌>>=◌
set_client_fds_lem fds w = refl

-- The loops over `client_fds`: the first entry of a name is erased, or what it points to is found;
-- `none` stands for a pointer that dangles or was not assigned.
unfoldable pub erase_client : Bytes → List (Bytes × Option ℤ) → List (Bytes × Option ℤ)
erase_client username [] = []
erase_client username ((name, fd) ∷ fds) =
    if bytes_eq name username then fds else (name, fd) ∷ erase_client username fds

unfoldable pub find_client : Bytes → List (Bytes × Option ℤ) → Option ℤ
find_client username [] = none
find_client username ((name, fd) ∷ fds) =
    if bytes_eq name username then fd else find_client username fds

-- The first entry of the name is there, and its pointer points to the variable of a thread that runs.
abbrev pub Points : Bytes → ℤ → List (Bytes × Option ℤ) → Type 0
Points name fd fds =
    (before : List (Bytes × Option ℤ)) × (after : List (Bytes × Option ℤ)) × (fds
      ≡ before ++ ((name, some fd) ∷ after))
    × All (λ e. bytes_eq e.0 name ≡ false) before

find_client_behind :
    (name : Bytes) (fd : ℤ) (before after : List (Bytes × Option ℤ))
    → All (λ e. bytes_eq e.0 name ≡ false) before
    → find_client name (before ++ ((name, some fd) ∷ after)) ≡ some fd
unfolding find_client
find_client_behind name fd [] after h = rw (bytes_eq_refl name)
find_client_behind name fd ((other, pointer) ∷ before) after h =
    rw (h.0) (find_client_behind name fd before after h.1)

pub find_client-Points :
    (name : Bytes) (fd : ℤ) (fds : List (Bytes × Option ℤ))
    → Points name fd fds
    → find_client name fds ≡ some fd
find_client-Points name fd fds (before, after, e, h) =
    ap (find_client name) e ∙ find_client_behind name fd before after h
