-- ===== src/Process/Ensures.antt =====
-- What holds of the value of a step of `Io`, if it ends with one.
use secure_person2person_p2p.Base.{ℕ, Bool, true, false, if◌then◌else◌}
use secure_person2person_p2p.Process.{Result, done, threw, exited, undefined, waits}
use secure_person2person_p2p.Process.Console.{
  Console, Io, pure, exit, go_wrong, lift, follow, ◌>>=◌,
}

abbrev pub Ends : {A : Type 0} → (A → Type 0) → Result A → Type 0
Ends P (done a) = P a
Ends P (threw e) = Unit {0}
Ends P (exited n) = Unit {0}
Ends P undefined = Unit {0}
Ends P waits = Unit {0}

pub record Ensures {A : Type 0} (P : A → Type 0) (m : Io A) : Type 0 where
  pub at : (c : Console) → Ends P (m c).0

anything : {B : Type 0} (r : Result B) → Ends (λ b. Unit {0}) r
anything (done b) = tt
anything (threw e) = tt
anything (exited n) = tt
anything undefined = tt
anything waits = tt

module _ {A : Type 0} {P : A → Type 0} where
  pub Ensures-pure : (a : A) → P a → Ensures P (pure a)
  unfolding ◌>>=◌
  Ensures-pure a h = record { at = λ c. h }

  pub Ensures-exit : (status : ℕ) → Ensures P (exit status)
  unfolding ◌>>=◌
  Ensures-exit status = record { at = λ c. tt }

  pub Ensures-go_wrong : Ensures P go_wrong
  unfolding ◌>>=◌
  Ensures-go_wrong = record { at = λ c. tt }

  pub Ensures-waits : Ensures P (lift waits)
  unfolding ◌>>=◌
  Ensures-waits = record { at = λ c. tt }

  pub Ensures-if :
      (b : Bool) (m k : Io A) → Ensures P m → Ensures P k → Ensures P (if b then m else k)
  Ensures-if true m k h g = h
  Ensures-if false m k h g = g

  -- From what a first step ensures.
  follows :
      {B : Type 0} (Q : B → Type 0) (f : B → Io A) (r : Result B × Console)
      → Ends Q r.0
      → ((b : B) → Q b → Ensures P (f b))
      → Ends P (follow r f).0
  follows Q f (done b, c) h k = (k b h).at c
  follows Q f (threw e, c) h k = tt
  follows Q f (exited n, c) h k = tt
  follows Q f (undefined, c) h k = tt
  follows Q f (waits, c) h k = tt

  pub Ensures-then :
      {B : Type 0} (Q : B → Type 0) (m : Io B) (f : B → Io A)
      → Ensures Q m
      → ((b : B) → Q b → Ensures P (f b))
      → Ensures P (m >>= f)
  unfolding ◌>>=◌
  Ensures-then Q m f h k = record { at = λ c. follows Q f (m c) (h.at c) k }

  -- Whatever the first step gives.
  pub Ensures-after :
      {B : Type 0} (m : Io B) (f : B → Io A) → ((b : B) → Ensures P (f b)) → Ensures P (m >>= f)
  Ensures-after m f k =
      Ensures-then (λ b. Unit {0}) m f (record { at = λ c. anything (m c).0 }) (λ b u. k b)

-- What follows from a value that is ensured.
weakened :
    {A : Type 0} (P Q : A → Type 0) → ((a : A) → P a → Q a) → (r : Result A) → Ends P r → Ends Q r
weakened P Q f (done a) h = f a h
weakened P Q f (threw e) h = tt
weakened P Q f (exited n) h = tt
weakened P Q f undefined h = tt
weakened P Q f waits h = tt

pub Ensures-weaken :
    {A : Type 0} (P Q : A → Type 0) (m : Io A) → ((a : A) → P a → Q a) → Ensures P m → Ensures Q m
Ensures-weaken P Q m f h = record { at = λ c. weakened P Q f (m c).0 (h.at c) }

pub ruleset ensures_rules =
    (Ensures-pure, Ensures-exit, Ensures-go_wrong, Ensures-waits, Ensures-if, Ensures-after)
