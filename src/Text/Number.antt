-- ===== src/Text/Number.antt =====
-- `is_number` of src/server.cpp, and `std::to_string`, `std::stoi` and `strspn`, which the program
-- calls. `std::stod` is a parameter of the model (Database/Amount).
pub mod Decimal
use secure_person2person_p2p.Base.{
  ℕ, zero, suc, ◌+◌, ◌-◌, ◌*◌, ◌/◌, ◌%◌, Bool, true, false, ◌&&◌, ◌||◌, [], ◌∷◌, ◌++◌, ltb, leb,
  ◌==◌, if◌then◌else◌, length, Bytes, codes, c_str, has_byte, ℤ, pos, negsuc, sub_ℕ, int_max,
}

-- The exceptions that the program meets: those of `stoi` and `stod`, and the client's own.
pub data Exception : Type 0 where
  invalid_argument out_of_range not_found : Exception

pub data Except {ℓ} (A : Type ℓ) : Type ℓ where
  ok : A → Except A
  throw : Exception → Except A

-- The length of the initial part of a C string that consists of bytes of a set.
pub strspn : Bytes → Bytes → ℕ
strspn [] accept = 0
strspn (c ∷ s) accept = if has_byte accept c then suc (strspn s accept) else 0

unfoldable pub is_number : Bytes → Bool → Bool
unfolding strspn has_byte c_str
is_number s false = strspn (c_str s) (codes "0123456789") == length s
is_number s true = strspn (c_str s) (codes "-.0123456789") == length s

abbrev pub is_digit : ℕ → Bool
is_digit c = leb b'0' c && leb c b'9'

-- `isspace` in the C locale.
abbrev pub is_space : ℕ → Bool
is_space c = c == 32 || (leb 9 c && leb c 13)

-- The least significant digit is written last; `fuel` bounds the number of digits.
pub digits : ℕ → ℕ → Bytes
digits zero n = []
digits (suc fuel) n =
    let rest = digits fuel (n / 10) in
    if ltb n 10 then (b'0' + n) ∷ [] else rest ++ (b'0' + n % 10) ∷ []

-- A number has at most as many digits as it is large, and one more.
abbrev pub decimal : ℕ → Bytes
decimal n = digits (suc n) n

unfoldable pub to_string : ℤ → Bytes
unfolding digits
to_string (pos n) = decimal n
to_string (negsuc n) = b'-' ∷ decimal (suc n)

-- The value of the digits that a text begins with, behind those that make up `acc`.
unfoldable pub scan : Bytes → ℕ → ℕ
scan [] acc = acc
scan (c ∷ s) acc = if is_digit c then scan s (acc * 10 + (c - b'0')) else acc

abbrev pub starts_with_digit : Bytes → Bool
starts_with_digit [] = false
starts_with_digit (c ∷ s) = is_digit c

unfoldable pub skip_spaces : Bytes → Bytes
skip_spaces [] = []
skip_spaces (c ∷ s) = if is_space c then skip_spaces s else c ∷ s

-- The value with its sign, if it fits a 32-bit `int`.
unfoldable pub in_range : Bool → ℕ → Except ℤ
in_range true n = if leb n (int_max + 1) then ok (sub_ℕ 0 n) else throw out_of_range
in_range false n = if leb n int_max then ok (pos n) else throw out_of_range

pub read_int : Bool → Bytes → Except ℤ
unfolding in_range scan
read_int negative s =
    if starts_with_digit s then in_range negative (scan s 0) else throw invalid_argument

pub read_signed : Bytes → Except ℤ
unfolding read_int
read_signed [] = throw invalid_argument
read_signed (c ∷ s) =
    if c == b'-'
    then read_int true s
    else if c == b'+'
    then read_int false s
    else read_int false (c ∷ s)

unfoldable pub stoi : Bytes → Except ℤ
unfolding read_signed skip_spaces c_str
stoi s = read_signed (skip_spaces (c_str s))
