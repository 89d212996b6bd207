-- ===== src/Text/Split/Loop.antt =====
-- The `while` loop of `split` as a relation, and its end.
use secure_person2person_p2p.Base.{
  ℕ, zero, suc, ◌≤◌, ◌≡◌, inl, inr, refl, List, [], ◌∷◌, ◌++◌, none, some, length, Bytes, c_str,
  arith,
}
use secure_person2person_p2p.Text.Split.{strtok, split_loop, split}
use secure_person2person_p2p.Text.Split.Fields.{strtok-Takes_from}

-- `Loop sep s arr n result`: on the text `s` and with the tokens `arr`, the loop makes `n` rounds, until
-- `strtok` finds no token, and leaves the tokens `result`.
pub data Loop (sep : Bytes) : Bytes → List Bytes → ℕ → List Bytes → Type 0 where
  ends : {s : Bytes} {arr : List Bytes} → strtok s sep ≡ none → Loop sep s arr 0 arr
  goes_on :
      {s rest current : Bytes} {arr result : List Bytes} {n : ℕ}
      → strtok s sep ≡ some (current, rest)
      → Loop sep rest (arr ++ current ∷ []) n result
      → Loop sep s arr (suc n) result

strtok_nil : (sep : Bytes) → strtok [] sep ≡ none
unfolding strtok
strtok_nil sep = refl

split_loop-Loop :
    (fuel : ℕ) (s sep : Bytes) (arr : List Bytes)
    → length s ≤ fuel
    → (n : ℕ) × (n ≤ length s) × Loop sep s arr n (split_loop fuel s sep arr)
unfolding split_loop
split_loop-Loop zero [] sep arr h = (0, omega arith, ends (strtok_nil sep))
split_loop-Loop zero (c ∷ s) sep arr h = absurd (omega arith)
split_loop-Loop (suc fuel) s sep arr h = elim (strtok-Takes_from sep s _ refl) [
  | inl (e, f) ↦ rw (e, split_loop) (0, omega arith, ends e)
  | inr (current, rest, e, f, lt) ↦
      let (n, b, l) = split_loop-Loop fuel rest sep (arr ++ current ∷ []) (omega arith) in
      rw (e, split_loop) (suc n, omega (arith, b, lt), goes_on e l)
]

-- For every text and all delimiters the loop of `split` ends by itself, with `strtok` out of tokens,
-- after at most one round for each byte of the text, and `split` returns what it leaves.
pub split-Loop :
    (str sep : Bytes)
    → (n : ℕ) × (n ≤ length (c_str str)) × Loop (c_str sep) (c_str str) [] n (split str sep)
unfolding split
split-Loop str sep = split_loop-Loop (length (c_str str)) (c_str str) (c_str sep) [] (omega arith)
