-- ===== src/Base/Strings.antt =====
-- Texts as lists of byte values, and the C string that a text holds.
use Prim.Native.Nat.{ℕ}
use Prim.Native.Char.{code}
use Prim.Native.String.{String}
use mathlib.Core.Path.{◌≡◌, refl, subst}
use mathlib.Core.Logic.{◌↔◌, ◌≢◌}
use mathlib.Core.Bool.{Bool, true, false, ◌&&◌}
use mathlib.Core.List.{List, [], ◌∷◌, ◌++◌}
use native.Mathlib.Omega.{arith}
use secure_person2person_p2p.Base.Tests.{◌==◌, if◌then◌else◌}
use secure_person2person_p2p.Base.Lists.{All}

abbrev pub Bytes : Type 0
Bytes = List ℕ

-- The code points of a literal: its bytes, as the program's literals are ASCII here.
abbrev pub codes : String → Bytes
codes String.[] = []
codes (String.◌∷◌ c s) = code c ∷ codes s

-- `std::string`'s `==`, and `strcmp(a, b) == 0` on C strings.
unfoldable pub bytes_eq : Bytes → Bytes → Bool
bytes_eq [] [] = true
bytes_eq [] (y ∷ ys) = false
bytes_eq (x ∷ xs) [] = false
bytes_eq (x ∷ xs) (y ∷ ys) = x == y && bytes_eq xs ys

bytes_eq→eq : (s t : Bytes) → bytes_eq s t ≡ true → s ≡ t
unfolding bytes_eq
bytes_eq→eq [] [] h = refl
bytes_eq→eq [] (y ∷ t) h = cc
bytes_eq→eq (x ∷ s) [] h = cc
bytes_eq→eq (x ∷ s) (y ∷ t) h = ground (arith, bytes_eq→eq s t)

pub bytes_eq_refl : (s : Bytes) → bytes_eq s s ≡ true
unfolding bytes_eq
bytes_eq_refl [] = refl
bytes_eq_refl (x ∷ s) = ground (arith, bytes_eq_refl s)

pub bytes_eq_iff : (s t : Bytes) → (bytes_eq s t ≡ true) ↔ (s ≡ t)
bytes_eq_iff s t = (bytes_eq→eq s t, λ e. subst (λ u. bytes_eq s u ≡ true) e (bytes_eq_refl s))

pub bytes_eq-append : (s t : Bytes) → s ≢ [] → bytes_eq (s ++ t) [] ≡ false
unfolding bytes_eq
bytes_eq-append [] t h = absurd (h refl)
bytes_eq-append (c ∷ s) t h = refl

-- Whether the byte is one of a set, such as the delimiters of `strtok`.
unfoldable pub has_byte : Bytes → ℕ → Bool
has_byte [] c = false
has_byte (d ∷ s) c = if d == c then true else has_byte s c

-- No byte of the text is `b`.
abbrev pub Lacks : ℕ → Bytes → Type 0
Lacks b = All (λ c. c ≢ b)

-- `s.c_str()` read as a C string: the bytes before the first NUL.
unfoldable pub c_str : Bytes → Bytes
c_str [] = []
c_str (c ∷ s) = if c == 0 then [] else c ∷ c_str s

pub c_str_whole : (s : Bytes) → Lacks 0 s → c_str s ≡ s
unfolding c_str
c_str_whole [] h = refl
c_str_whole (c ∷ s) h = ground (arith, c_str_whole s h.1)

pub c_str-Lacks : (s : Bytes) → Lacks 0 (c_str s)
unfolding c_str
c_str-Lacks [] = tt
c_str-Lacks (c ∷ s) = ground (arith, c_str-Lacks s)
