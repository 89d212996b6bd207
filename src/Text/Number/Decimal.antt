-- ===== src/Text/Number/Decimal.antt =====
-- `stoi` reads back what `to_string` wrote; what the digits are.
use mathlib.Core.List.{concat-ne-nil}
use secure_person2person_p2p.Base.{
  ◌↔◌, ==_iff, has_byte, length, ℕ, zero, suc, ◌+◌, ◌-◌, ◌*◌, ◌/◌, ◌%◌, ◌<◌, ◌≤◌, ◌≡◌, ◌≢◌, refl,
  sym, ap, ◌∙◌, true, false, [], ◌∷◌, ◌++◌, append_assoc, append-nil, ltb, leb, if◌then◌else◌,
  Bytes, codes, c_str, c_str_whole, ℤ, pos, negsuc, int_max, InInt, All, All-append, Lacks, arith,
  Bool-cases, ◌⊎◌, inl, inr,
}
use secure_person2person_p2p.Text.Number.{
  strspn, is_number, invalid_argument, out_of_range, Except, ok, throw, is_digit, digits, decimal,
  to_string, scan, skip_spaces, read_signed, read_int, in_range, stoi,
}

abbrev pub IsDigit : ℕ → Type 0
IsDigit c = (b'0' ≤ c) × (c ≤ b'9')

digits-IsDigit : (fuel n : ℕ) → All IsDigit (digits fuel n)
unfolding digits
digits-IsDigit zero n = tt
digits-IsDigit (suc fuel) n = elim (Bool-cases (ltb n 10)) [
  | inl e ↦ rw e (ground arith)
  | inr e ↦
      rw e
        (All-append IsDigit (digits fuel (n / 10)) _ (digits-IsDigit fuel (n / 10)) (omega arith))
]

digits-ne-nil : (fuel n : ℕ) → digits (suc fuel) n ≢ []
unfolding digits
digits-ne-nil fuel n = elim (Bool-cases (ltb n 10)) [
  | inl e ↦ rw e (λ q. cc)
  | inr e ↦ rw e (concat-ne-nil _ (digits fuel (n / 10)))
]

last_digit : (n : ℕ) → n / 10 * 10 + (b'0' + n % 10 - b'0') ≡ n
last_digit n = omega arith

scan-digits : (fuel n : ℕ) (rest : Bytes) → n < fuel → scan (digits fuel n ++ rest) 0 ≡ scan rest n
unfolding digits scan
scan-digits zero n rest h = absurd (omega arith)
scan-digits (suc fuel) n rest h = elim (Bool-cases (ltb n 10)) [
  | inl e ↦ rw e (ground arith)
  | inr e ↦
      rw (e, append_assoc)
        (scan-digits fuel (n / 10) _ (ground arith) ∙ ground (arith, last_digit n))
]

scan-decimal : (n : ℕ) → scan (decimal n) 0 ≡ n
unfolding scan
scan-decimal n =
    ap (λ s. scan s 0) (sym (append-nil (decimal n))) ∙ scan-digits (suc n) n [] (omega arith)

read-digits :
    (s : Bytes) → All IsDigit s → s ≢ [] → read_signed (skip_spaces s) ≡ in_range false (scan s 0)
unfolding read_signed skip_spaces read_int
read-digits [] h ne = absurd (ne refl)
read-digits (c ∷ s) h ne = ground arith

read-minus :
    (s : Bytes)
    → All IsDigit s
    → s ≢ []
    → read_signed (skip_spaces (b'-' ∷ s)) ≡ in_range true (scan s 0)
unfolding read_signed skip_spaces read_int
read-minus [] h ne = absurd (ne refl)
read-minus (c ∷ s) h ne = ground arith

-- A byte that is no digit is not written.
pub All-Lacks : (b : ℕ) (s : Bytes) → (b < b'0') ⊎ (b'9' < b) → All IsDigit s → Lacks b s
All-Lacks b [] h d = tt
All-Lacks b (c ∷ s) h d = (omega arith, All-Lacks b s h d.1)

decimal-nul_free : (n : ℕ) → Lacks 0 (decimal n)
decimal-nul_free n = All-Lacks 0 _ (inl (omega arith)) (digits-IsDigit (suc n) n)

in_range-pos : (n : ℕ) → n ≤ int_max → in_range false n ≡ ok (pos n)
unfolding in_range
in_range-pos n h = ground arith

in_range-negsuc : (n : ℕ) → suc n ≤ int_max + 1 → in_range true (suc n) ≡ ok (negsuc n)
unfolding in_range
in_range-negsuc n h = ground arith

-- Every value of a 32-bit `int` is read back by `stoi` from the text that `to_string` makes of it.
pub stoi-to_string : (a : ℤ) → InInt a → stoi (to_string a) ≡ ok a
unfolding stoi to_string
stoi-to_string (pos n) h =
    ap (λ s. read_signed (skip_spaces s)) (c_str_whole _ (decimal-nul_free n))
    ∙ read-digits (decimal n) (digits-IsDigit (suc n) n) (digits-ne-nil n n)
    ∙ ap (in_range false) (scan-decimal n)
    ∙ in_range-pos n h.0
stoi-to_string (negsuc n) h =
    let s = decimal (suc n) in
    ap (λ t. read_signed (skip_spaces t))
      (c_str_whole (b'-' ∷ s) ((λ e. omega arith), decimal-nul_free (suc n)))
    ∙ read-minus s (digits-IsDigit (suc (suc n)) (suc n)) (digits-ne-nil (suc n) (suc n))
    ∙ ap (in_range true) (scan-decimal (suc n))
    ∙ in_range-negsuc n h.1

-- The text of a number is not empty and holds digits only, behind a minus for a negative one.
pub to_string-Lacks : (b : ℕ) (a : ℤ) → b ≢ b'-' → (b < b'0') ⊎ (b'9' < b) → Lacks b (to_string a)
unfolding to_string
to_string-Lacks b (pos n) m h = All-Lacks b _ h (digits-IsDigit (suc n) n)
to_string-Lacks b (negsuc n) m h =
    ((λ e. m (sym e)), All-Lacks b _ h (digits-IsDigit (suc (suc n)) (suc n)))

pub to_string-ne-nil : (a : ℤ) → to_string a ≢ []
unfolding to_string
to_string-ne-nil (pos n) = digits-ne-nil n n
to_string-ne-nil (negsuc n) = λ e. cc

has_byte-digits : (c : ℕ) → has_byte (codes "0123456789") c ≡ is_digit c
unfolding has_byte
has_byte-digits c = ground arith

strspn-le : (s accept : Bytes) → strspn s accept ≤ length s
unfolding strspn
strspn-le [] accept = omega arith
strspn-le (c ∷ s) accept = ground (arith, strspn-le s accept)

length-c_str : (s : Bytes) → length (c_str s) ≤ length s
unfolding c_str
length-c_str [] = omega arith
length-c_str (c ∷ s) = ground (arith, length-c_str s)

strspn-IsDigit : (s : Bytes) → strspn s (codes "0123456789") ≡ length s → All IsDigit s
unfolding strspn
strspn-IsDigit [] h = tt
strspn-IsDigit (c ∷ s) h = ground (arith, has_byte-digits c, strspn-IsDigit s)

strspn_digits : (s : Bytes) → All IsDigit s → strspn s (codes "0123456789") ≡ length s
unfolding strspn
strspn_digits [] h = refl
strspn_digits (c ∷ s) h = ground (arith, has_byte-digits c, strspn_digits s)

length-c_str_whole : (s : Bytes) → length (c_str s) ≡ length s → c_str s ≡ s
unfolding c_str
length-c_str_whole [] h = refl
length-c_str_whole (c ∷ s) h = ground (arith, length-c_str_whole s)

-- Without the flag for decimals `is_number` holds exactly for the texts of digits only (the empty
-- text among them).
pub is_number-IsDigit : (s : Bytes) → (is_number s false ≡ true) ↔ All IsDigit s
unfolding is_number
is_number-IsDigit s = (
  λ h.
      let e : strspn (c_str s) (codes "0123456789") ≡ length s = (==_iff _ _).0 h in
      let w =
        length-c_str_whole s
          (omega (arith, strspn-le (c_str s) (codes "0123456789"), length-c_str s)) in
      strspn-IsDigit s (rw w at e),
  λ d.
      (==_iff _ _).1 (rw (c_str_whole s (All-Lacks 0 s (inl (omega arith)) d)) (strspn_digits s d)),
)

has_byte-decimals : (c : ℕ) → IsDigit c → has_byte (codes "-.0123456789") c ≡ true
unfolding has_byte
has_byte-decimals c d = ground arith

strspn-decimals : (s : Bytes) → All IsDigit s → strspn s (codes "-.0123456789") ≡ length s
unfolding strspn
strspn-decimals [] h = refl
strspn-decimals (c ∷ s) h = rw (has_byte-decimals c h.0) (ap suc (strspn-decimals s h.1))

is_number-decimals : (s : Bytes) → All IsDigit s → is_number s true ≡ true
unfolding is_number
is_number-decimals s d =
    (==_iff _ _).1 (rw (c_str_whole s (All-Lacks 0 s (inl (omega arith)) d)) (strspn-decimals s d))

minus_nonzero : ◌≢◌ {A = ℕ} b'-' 0
minus_nonzero = λ e. absurd (omega arith)

is_number-minus : (s : Bytes) → All IsDigit s → is_number (b'-' ∷ s) true ≡ true
unfolding is_number
is_number-minus s d = (==_iff _ _).1 (
    ap (λ t. strspn t (codes "-.0123456789"))
      (c_str_whole (b'-' ∷ s) (minus_nonzero, All-Lacks 0 s (inl (omega arith)) d))
    ∙ unfold strspn has_byte in ap suc (strspn-decimals s d))

-- The text of an `int` is a number with the flag for decimals, and that of a natural number is one
-- without it.
pub is_number-to_string : (a : ℤ) → is_number (to_string a) true ≡ true
unfolding to_string
is_number-to_string (pos n) = is_number-decimals _ (digits-IsDigit (suc n) n)
is_number-to_string (negsuc n) = is_number-minus _ (digits-IsDigit (suc (suc n)) (suc n))

pub is_number-natural : (n : ℕ) → is_number (to_string (pos n)) false ≡ true
unfolding to_string
is_number-natural n = (is_number-IsDigit (decimal n)).1 (digits-IsDigit (suc n) n)

-- The number that a text of digits only stands for, as an `int`.
abbrev pub digits_value : Bytes → Except ℤ
digits_value [] = throw invalid_argument
digits_value (c ∷ s) =
    let n = scan (c ∷ s) 0 in if leb n int_max then ok (pos n) else throw out_of_range

-- Of a text of digits only `stoi` makes the value, or an exception when there is no digit or the
-- value does not fit an `int`.
pub stoi-digits_value : (s : Bytes) → All IsDigit s → stoi s ≡ digits_value s
unfolding stoi
stoi-digits_value [] d = unfold read_signed skip_spaces c_str in refl
stoi-digits_value (c ∷ s) d =
    ap (λ t. read_signed (skip_spaces t))
      (c_str_whole (c ∷ s) (All-Lacks 0 (c ∷ s) (inl (omega arith)) d))
    ∙ read-digits (c ∷ s) d (λ e. cc)
    ∙ unfold in_range in refl
