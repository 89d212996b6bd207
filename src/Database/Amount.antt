-- ===== src/Database/Amount.antt =====
-- The arithmetic of `double`, in which Database::user_transaction computes: a parameter.
use secure_person2person_p2p.Base.{◌≡◌, Bool, true, false, Bytes, ℤ, ◌+ℤ◌, ◌-ℤ◌, leb_ℤ, InInt}
use secure_person2person_p2p.Text.Number.{Except, ok, to_string}

-- `leb` and `ltb` are `<=` and `<`; `to_int` is the conversion of a `double` to an `int`.
pub record Double (D : Type 0) : Type 0 where
  pub of_int : ℤ → D
  pub add : D → D → D
  pub sub : D → D → D
  pub leb : D → D → Bool
  pub ltb : D → D → Bool
  pub to_int : D → ℤ
  pub stod : Bytes → Except D

-- What IEEE 754 and the C++ standard say of these. Only a NaN is unordered; an `int` is exact as a
-- `double`, and so are the sums and differences of two.
pub record IsDouble {D : Type 0} (d : Double D) : Type 0 where
  pub is_nan : D → Bool
  pub leb_ints : (a b : ℤ) → InInt a → InInt b → d.leb (d.of_int a) (d.of_int b) ≡ leb_ℤ a b
  pub add_ints : (a b : ℤ) → InInt a → InInt b → d.add (d.of_int a) (d.of_int b) ≡ d.of_int (a +ℤ b)
  pub sub_ints : (a b : ℤ) → InInt a → InInt b → d.sub (d.of_int a) (d.of_int b) ≡ d.of_int (a -ℤ b)
  pub ltb-leb :
      (x y : D) → is_nan x ≡ false → is_nan y ≡ false → d.ltb x y ≡ false → d.leb y x ≡ true
  pub leb-ltb : (x y : D) → d.leb y x ≡ true → d.ltb x y ≡ false
  pub of_int_number : (a : ℤ) → is_nan (d.of_int a) ≡ false
  -- A conversion of what an `int` was made to gives it back.
  pub to_int_of_int : (a : ℤ) → InInt a → d.to_int (d.of_int a) ≡ a
  -- The text of an `int` is read exactly.
  pub stod_int : (a : ℤ) → InInt a → d.stod (to_string a) ≡ ok (d.of_int a)
