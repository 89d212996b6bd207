-- ===== src/Tests/Halves.antt =====
-- Numbers in halves: the assumptions on `double` can be met, with an amount that is not whole.
use secure_person2person_p2p.Base.{
  suc, ◌+◌, ◌/◌, ◌≡◌, refl, ap, true, false, ℤ, pos, negsuc, sub_ℕ, pos_part, neg_part, ◌+ℤ◌, ◌-ℤ◌,
  leb_ℤ, ltb_ℤ, InInt, int_laws, +ℤ_parts, parts_disjoint, arith,
}
use secure_person2person_p2p.Text.Number.{Except, ok, throw, stoi, to_string}
use secure_person2person_p2p.Text.Number.Decimal.{stoi-to_string}
use secure_person2person_p2p.Database.Amount.{Double, IsDouble}

unfoldable pub twice : ℤ → ℤ
twice a = a +ℤ a

unfoldable pub half : ℤ → ℤ
half (pos n) = pos (n / 2)
half (negsuc n) = sub_ℕ 0 (suc n / 2)

unfoldable pub read : Except ℤ → Except ℤ
unfolding twice
read (ok a) = ok (twice a)
read (throw e) = throw e

abbrev pub halves : Double ℤ
halves = record {
  of_int = twice;
  add = ◌+ℤ◌;
  sub = ◌-ℤ◌;
  leb = leb_ℤ;
  ltb = ltb_ℤ;
  to_int = half;
  stod = λ s. read (stoi s);
}

twice_parts :
    (a : ℤ)
    → pos_part (twice a) + neg_part a + neg_part a ≡ neg_part (twice a) + pos_part a + pos_part a
unfolding twice
twice_parts a = +ℤ_parts a a

leb_twice : (a b : ℤ) → leb_ℤ (twice a) (twice b) ≡ leb_ℤ a b
leb_twice a b = ground (arith, twice_parts a, twice_parts b)

add_twice : (a b : ℤ) → twice a +ℤ twice b ≡ twice (a +ℤ b)
add_twice a b = omega (int_laws, twice_parts)

sub_twice : (a b : ℤ) → twice a -ℤ twice b ≡ twice (a -ℤ b)
sub_twice a b = omega (int_laws, twice_parts)

not_less : (x y : ℤ) → ltb_ℤ x y ≡ false → leb_ℤ y x ≡ true
not_less x y e = ground arith

less_not : (x y : ℤ) → leb_ℤ y x ≡ true → ltb_ℤ x y ≡ false
less_not x y e = ground arith

half-twice : (a : ℤ) → half (twice a) ≡ a
unfolding half
half-twice (pos n) = ground (arith, twice_parts (pos n), parts_disjoint (twice (pos n)))
half-twice (negsuc n) = ground (arith, twice_parts (negsuc n), parts_disjoint (twice (negsuc n)))

stod_int : (a : ℤ) → InInt a → read (stoi (to_string a)) ≡ ok (twice a)
unfolding read
stod_int a i = ap read (stoi-to_string a i)

pub halves_laws : IsDouble halves
halves_laws = record {
  is_nan = λ x. false;
  leb_ints = λ a b i j. leb_twice a b;
  add_ints = λ a b i j. add_twice a b;
  sub_ints = λ a b i j. sub_twice a b;
  ltb-leb = λ x y i j. not_less x y;
  leb-ltb = less_not;
  of_int_number = λ a. refl;
  to_int_of_int = λ a i. half-twice a;
  stod_int = stod_int;
}
