-- ===== src/Text/Split.antt =====
-- `split` (src/server.cpp and src/client.cpp, the same text in both) and `strtok`, which it calls.
pub mod Fields
pub mod Tokens
pub mod Loop
use secure_person2person_p2p.Base.{
  ℕ, zero, suc, List, [], ◌∷◌, ◌++◌, Option, none, some, if◌then◌else◌, length, Bytes, c_str,
  has_byte,
}

-- The text behind the delimiters that it begins with.
pub skip_delims : Bytes → Bytes → Bytes
skip_delims sep [] = []
skip_delims sep (c ∷ s) = if has_byte sep c then skip_delims sep s else c ∷ s

-- The bytes up to the first delimiter.
pub token : Bytes → Bytes → Bytes
token sep [] = []
token sep (c ∷ s) = if has_byte sep c then [] else c ∷ token sep s

-- Where `strtok` goes on: behind the delimiter that ended the token.
pub after_token : Bytes → Bytes → Bytes
after_token sep [] = []
after_token sep (c ∷ s) = if has_byte sep c then s else after_token sep s

-- One call of `strtok` on a C string: the token and the text that the next call goes on with.
pub strtok : Bytes → Bytes → Option (Bytes × Bytes)
unfolding skip_delims token after_token
strtok s sep = elim (skip_delims sep s) [
  | [] ↦ none
  | c ∷ t ↦ some (token sep (c ∷ t), after_token sep (c ∷ t))
]

-- The `while` loop; `arr` holds the tokens so far. Each round uses up at least one byte, so that a
-- C string of n bytes is used up within n rounds (Text/Split/Fields).
pub split_loop : ℕ → Bytes → Bytes → List Bytes → List Bytes
split_loop zero s sep arr = arr
split_loop (suc fuel) s sep arr = elim (strtok s sep) [
  | none ↦ arr
  | some (current, rest) ↦ split_loop fuel rest sep (arr ++ current ∷ [])
]

unfoldable pub split : Bytes → Bytes → List Bytes
unfolding split_loop strtok has_byte c_str
split str sep = split_loop (length (c_str str)) (c_str str) (c_str sep) []
