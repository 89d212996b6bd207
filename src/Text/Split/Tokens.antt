-- ===== src/Text/Split/Tokens.antt =====
-- The tokens that `split` returns for one delimiter, and the texts that they come from.
use secure_person2person_p2p.Base.{
  ℕ, ◌≡◌, ◌≢◌, refl, sym, ap, ◌∙◌, List, [], ◌∷◌, ◌++◌, append_assoc, append-nil, ◌==◌, inl, inr,
  Bool-cases, Bytes, has_byte, c_str, arith, All, Lacks, All-append, c_str-Lacks, c_str_whole,
}
use secure_person2person_p2p.Text.Split.{split}
use secure_person2person_p2p.Text.Split.Fields.{ended, fields, split-fields}

-- A token: not empty, and with no delimiter and no NUL in it.
abbrev pub IsToken : ℕ → Bytes → Type 0
IsToken d s = (s ≢ []) × Lacks d s × Lacks 0 s

-- Each token with the delimiter behind it.
abbrev pub terminated : ℕ → List Bytes → Bytes
terminated d [] = []
terminated d (s ∷ ss) = s ++ (d ∷ terminated d ss)

-- The tokens with the delimiter between them.
abbrev pub joined : ℕ → Bytes → List Bytes → Bytes
joined d s [] = s
joined d s (t ∷ ts) = s ++ (d ∷ joined d t ts)

module _ (d : ℕ) where
  ended-IsToken :
      (cur : Bytes) (rest : List Bytes)
      → Lacks d cur
      → Lacks 0 cur
      → All (IsToken d) rest
      → All (IsToken d) (ended cur rest)
  ended-IsToken [] rest hd hz hr = hr
  ended-IsToken (b ∷ cur) rest hd hz hr = (((λ e. cc), hd, hz), hr)

  fields-IsToken :
      (s cur : Bytes)
      → Lacks 0 s
      → Lacks d cur
      → Lacks 0 cur
      → All (IsToken d) (fields (d ∷ []) s cur)
  unfolding fields has_byte
  fields-IsToken [] cur hs hd hz = ended-IsToken cur [] hd hz tt
  fields-IsToken (c ∷ s) cur hs hd hz = elim (Bool-cases (d == c)) [
    | inl e ↦ rw e (ended-IsToken cur _ hd hz (fields-IsToken s [] hs.1 tt tt))
    | inr e ↦ rw e (
        fields-IsToken s (cur ++ c ∷ []) hs.1
          (All-append (λ b. b ≢ d) cur (c ∷ []) hd ((λ q. ground arith), tt))
          (All-append (λ b. b ≢ 0) cur (c ∷ []) hz (hs.0, tt)))
  ]

  fields-append :
      (s rest cur : Bytes)
      → Lacks d s
      → fields (d ∷ []) (s ++ rest) cur ≡ fields (d ∷ []) rest (cur ++ s)
  unfolding fields has_byte
  fields-append [] rest cur h = rw append-nil
  fields-append (c ∷ s) rest cur h =
      ground (arith, fields-append s rest (cur ++ c ∷ []), append_assoc cur (c ∷ []) s)

  fields-delim :
      (rest cur : Bytes) → fields (d ∷ []) (d ∷ rest) cur ≡ ended cur (fields (d ∷ []) rest [])
  unfolding fields has_byte
  fields-delim rest cur = ground arith

  ended_lem : (s : Bytes) (rest : List Bytes) → s ≢ [] → ended s rest ≡ s ∷ rest
  ended_lem [] rest h = absurd (h refl)
  ended_lem (c ∷ s) rest h = refl

  fields-token :
      (s rest : Bytes)
      → IsToken d s
      → fields (d ∷ []) (s ++ (d ∷ rest)) [] ≡ s ∷ fields (d ∷ []) rest []
  fields-token s rest (ne, hd, _) =
      rw (fields-append s (d ∷ rest) [] hd, fields-delim) (ended_lem s _ ne)

  fields-last : (s : Bytes) → IsToken d s → fields (d ∷ []) s [] ≡ s ∷ []
  unfolding fields
  fields-last s (ne, hd, _) =
      ap (λ t. fields (d ∷ []) t []) (sym (append-nil s))
      ∙ fields-append s [] [] hd
      ∙ ended_lem s [] ne

  fields-joined :
      (s : Bytes) (ss : List Bytes)
      → IsToken d s
      → All (IsToken d) ss
      → fields (d ∷ []) (joined d s ss) [] ≡ s ∷ ss
  fields-joined s [] hs hss = fields-last s hs
  fields-joined s (t ∷ ts) hs hss = rw (fields-token s _ hs, fields-joined t ts hss.0 hss.1)

  fields-terminated :
      (ss : List Bytes) → All (IsToken d) ss → fields (d ∷ []) (terminated d ss) [] ≡ ss
  fields-terminated [] h = unfold fields in refl
  fields-terminated (s ∷ ss) h = rw (fields-token s _ h.0, fields-terminated ss h.1)

  pub terminated-Lacks :
      (b : ℕ) (ss : List Bytes) → b ≢ d → All (Lacks b) ss → Lacks b (terminated d ss)
  terminated-Lacks b [] ne h = tt
  terminated-Lacks b (s ∷ ss) ne h =
      All-append (λ c. c ≢ b) s _ h.0 ((λ e. ne (sym e)), terminated-Lacks b ss ne h.1)

  pub joined-Lacks :
      (b : ℕ) (s : Bytes) (ss : List Bytes)
      → b ≢ d
      → Lacks b s
      → All (Lacks b) ss
      → Lacks b (joined d s ss)
  joined-Lacks b s [] ne h hs = h
  joined-Lacks b s (t ∷ ts) ne h hs =
      All-append (λ c. c ≢ b) s _ h ((λ e. ne (sym e)), joined-Lacks b t ts ne hs.0 hs.1)

  pub nul-free : (ss : List Bytes) → All (IsToken d) ss → All (Lacks 0) ss
  nul-free [] h = tt
  nul-free (s ∷ ss) h = (h.0.2, nul-free ss h.1)

c_str-delim : (d : ℕ) → d ≢ 0 → c_str (d ∷ []) ≡ d ∷ []
c_str-delim d h = c_str_whole (d ∷ []) (h, tt)

-- Every part that `split` returns for a delimiter other than NUL is a token: it is not empty and
-- holds neither the delimiter nor a NUL.
pub split-IsToken : (d : ℕ) (str : Bytes) → d ≢ 0 → All (IsToken d) (split str (d ∷ []))
split-IsToken d str h =
    rw (split-fields, c_str-delim d h) (fields-IsToken d (c_str str) [] (c_str-Lacks str) tt tt)

-- Splitting tokens that were joined by a delimiter other than NUL gives the tokens back. They are
-- not empty and hold neither the delimiter nor a NUL.
pub split-joined :
    (d : ℕ) (s : Bytes) (ss : List Bytes)
    → d ≢ 0
    → IsToken d s
    → All (IsToken d) ss
    → split (joined d s ss) (d ∷ []) ≡ s ∷ ss
split-joined d s ss h hs hss =
    rw
      (
        split-fields,
        c_str-delim d h,
        c_str_whole _ (joined-Lacks d 0 s ss (λ e. h (sym e)) hs.2 (nul-free d ss hss)),
      )
      (fields-joined d s ss hs hss)

-- Splitting tokens that each have the delimiter behind them, which is not NUL, gives the tokens
-- back. They are not empty and hold neither the delimiter nor a NUL.
pub split-terminated :
    (d : ℕ) (ss : List Bytes) → d ≢ 0 → All (IsToken d) ss → split (terminated d ss) (d ∷ []) ≡ ss
split-terminated d ss h hss =
    rw
      (
        split-fields,
        c_str-delim d h,
        c_str_whole _ (terminated-Lacks d 0 ss (λ e. h (sym e)) (nul-free d ss hss)),
      )
      (fields-terminated d ss hss)
