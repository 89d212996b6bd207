-- ===== src/Text/Split/Fields.antt =====
-- What `split` computes: the fields of the text, read in one pass.
use secure_person2person_p2p.Base.{
  ℕ, zero, suc, ◌≤◌, ◌<◌, ◌≡◌, ◌⊎◌, inl, inr, refl, sym, ap, ◌∙◌, false, List, [], ◌∷◌, ◌++◌,
  append_assoc, append-nil, Option, none, some, if◌then◌else◌, length, Bytes, has_byte, c_str,
  arith,
}
use secure_person2person_p2p.Text.Split.{skip_delims, token, after_token, strtok, split_loop, split}

-- A field that has ended, if it holds anything.
abbrev pub ended : Bytes → List Bytes → List Bytes
ended [] rest = rest
ended (c ∷ cur) rest = (c ∷ cur) ∷ rest

-- The fields of a text, `cur` being the part of the current one that was read.
unfoldable pub fields : Bytes → Bytes → Bytes → List Bytes
fields sep [] cur = ended cur []
fields sep (c ∷ s) cur =
    if has_byte sep c then ended cur (fields sep s []) else fields sep s (cur ++ c ∷ [])

fields-skip_delims : (sep s : Bytes) → fields sep (skip_delims sep s) [] ≡ fields sep s []
unfolding fields skip_delims
fields-skip_delims sep [] = refl
fields-skip_delims sep (c ∷ s) = ground (arith, fields-skip_delims sep s)

fields-token :
    (sep s : Bytes) (b : ℕ) (cur : Bytes)
    → fields sep s (b ∷ cur) ≡ (b ∷ cur ++ token sep s) ∷ fields sep (after_token sep s) []
unfolding fields token after_token
fields-token sep [] b cur = rw append-nil
fields-token sep (c ∷ s) b cur = ground (
  arith,
  append-nil cur,
  fields-token sep s b (cur ++ c ∷ []),
  append_assoc cur (c ∷ []) (token sep s),
)

length-skip_delims : (sep s : Bytes) → length (skip_delims sep s) ≤ length s
unfolding skip_delims
length-skip_delims sep [] = omega arith
length-skip_delims sep (c ∷ s) = ground (arith, length-skip_delims sep s)

length-after_token : (sep s : Bytes) (c : ℕ) → length (after_token sep (c ∷ s)) ≤ length s
unfolding after_token
length-after_token sep [] c = ground arith
length-after_token sep (d ∷ s) c = ground (arith, length-after_token sep s d)

skip_delims-head :
    (sep s : Bytes) (d : ℕ) (t : Bytes) → skip_delims sep s ≡ d ∷ t → has_byte sep d ≡ false
unfolding skip_delims
skip_delims-head sep [] d t e = cc
skip_delims-head sep (c ∷ s) d t e = ground (arith, skip_delims-head sep s d t)

fields-head :
    (sep : Bytes) (c : ℕ) (t : Bytes)
    → has_byte sep c ≡ false
    → fields sep (c ∷ t) [] ≡ token sep (c ∷ t) ∷ fields sep (after_token sep (c ∷ t)) []
unfolding fields token after_token
fields-head sep c t e = rw e (fields-token sep t c [])

after_token-lt :
    (sep s : Bytes) (c : ℕ) (t : Bytes)
    → skip_delims sep s ≡ c ∷ t
    → length (after_token sep (c ∷ t)) < length s
after_token-lt sep s c t e =
    omega (arith, length-after_token sep t c, length-skip_delims sep s, ap (length {0}) e)

-- One call of `strtok` against the fields: it takes off the first one, and gets shorter.
abbrev pub Takes : Bytes → Bytes → Option (Bytes × Bytes) → Type 0
Takes sep s r =
    ((r ≡ none) × (fields sep s [] ≡ []))
    ⊎ ((current : Bytes) × (rest : Bytes) × (r ≡ some (current, rest))
        × (fields sep s [] ≡ current ∷ fields sep rest [])
        × (length rest < length s))

pub strtok-Takes_from : (sep s t : Bytes) → skip_delims sep s ≡ t → Takes sep s (strtok s sep)
unfolding strtok
strtok-Takes_from sep s [] e =
    inl (rw (e, strtok), sym (fields-skip_delims sep s) ∙ rw e (unfold fields in refl))
strtok-Takes_from sep s (c ∷ t) e = inr (
  token sep (c ∷ t),
  after_token sep (c ∷ t),
  rw (e, strtok),
  sym (fields-skip_delims sep s) ∙ rw e (fields-head sep c t (skip_delims-head sep s c t e)),
  after_token-lt sep s c t e,
)

-- With a round for each byte the loop appends the fields of its text.
split_loop-fields :
    (fuel : ℕ) (s sep : Bytes) (arr : List Bytes)
    → length s ≤ fuel
    → split_loop fuel s sep arr ≡ arr ++ fields sep s []
unfolding split_loop
split_loop-fields zero [] sep arr h = unfold fields in rw append-nil
split_loop-fields zero (c ∷ s) sep arr h = absurd (omega arith)
split_loop-fields (suc fuel) s sep arr h = elim (strtok-Takes_from sep s _ refl) [
  | inl (e, f) ↦ rw (e, split_loop, f, append-nil)
  | inr (current, rest, e, f, lt) ↦
      rw (e, split_loop, f)
        (split_loop-fields fuel rest sep (arr ++ current ∷ []) (omega arith) ∙ append_assoc arr _ _)
]

-- `split` gives the fields of its text, whatever the text and the delimiters.
pub split-fields : (str sep : Bytes) → split str sep ≡ fields (c_str sep) (c_str str) []
unfolding split
split-fields str sep =
    split_loop-fields (length (c_str str)) (c_str str) (c_str sep) [] (omega arith)
