-- ===== src/Util/Keys/Files.antt =====
-- What `readKey` returns for a text file.
use secure_person2person_p2p.Base.{
  ◌<◌, ◌≡◌, ◌≢◌, refl, ap, ◌∙◌, List, [], ◌∷◌, ◌++◌, append_assoc, append-nil, some, ltb,
  if◌then◌else◌, inl, inr, length, length-append, Bytes, All, All-append, Lacks, c_str, c_str_whole,
  arith, Bool-cases,
}
use secure_person2person_p2p.Process.{done, undefined}
use secure_person2person_p2p.Text.Split.Tokens.{terminated}
use secure_person2person_p2p.Util.Keys.{lines, key_size, read_lines, read_key}

-- A line of text.
abbrev pub IsLine : Bytes → Type 0
IsLine l = Lacks b'\n' l × Lacks 0 l

lines-line :
    (l rest cur : Bytes)
    → Lacks b'\n' l
    → lines (l ++ (b'\n' ∷ rest)) cur ≡ (cur ++ l) ∷ lines rest []
unfolding lines
lines-line [] rest cur h = rw append-nil
lines-line (c ∷ l) rest cur h =
    ground (arith, lines-line l rest (cur ++ c ∷ []) h.1, append_assoc cur (c ∷ []) l)

lines-terminated : (ls : List Bytes) → All IsLine ls → lines (terminated b'\n' ls) [] ≡ ls
lines-terminated [] h = unfold lines in refl
lines-terminated (l ∷ ls) h =
    lines-line l (terminated b'\n' ls) [] h.0.0 ∙ ap (◌∷◌ l) (lines-terminated ls h.1)

whole_line : (l : Bytes) → IsLine l → c_str (l ++ b'\n' ∷ []) ≡ l ++ b'\n' ∷ []
whole_line l h =
    c_str_whole (l ++ b'\n' ∷ [])
      (All-append (λ c. c ≢ 0) l (b'\n' ∷ []) h.1 ((λ e. absurd (omega arith)), tt))

read_lines-terminated :
    (ls : List Bytes) (key : Bytes)
    → All IsLine ls
    → length key < key_size
    → read_lines ls key ≡ (
        if ltb (length (key ++ terminated b'\n' ls)) key_size
        then done (key ++ terminated b'\n' ls)
        else undefined)
unfolding read_lines
read_lines-terminated [] key h k = rw append-nil (ground arith)
read_lines-terminated (l ∷ ls) key h k =
    let longer = key ++ (l ++ b'\n' ∷ []) in
    let e : longer ++ terminated b'\n' ls ≡ key ++ (l ++ (b'\n' ∷ terminated b'\n' ls)) =
      append_assoc key (l ++ b'\n' ∷ []) _ ∙ ap (λ t. key ++ t) (append_assoc l (b'\n' ∷ []) _) in
    rw (whole_line l h.0) (elim (Bool-cases (ltb (length longer) key_size)) [
      | inl fits ↦ rw fits (read_lines-terminated ls longer h.1 (ground arith) ∙ rw e)
      | inr long ↦
          rw long (ground (arith, length-append longer (terminated b'\n' ls), ap (length {0}) e))
    ])

-- The contents of a file of lines that each end with a newline and hold no NUL are read unchanged if
-- they have less than 4096 bytes; more of them are written behind the end of the buffer.
pub read_key-terminated :
    (ls : List Bytes)
    → All IsLine ls
    → read_key (some (terminated b'\n' ls)) ≡ (
        if ltb (length (terminated b'\n' ls)) key_size
        then done (terminated b'\n' ls)
        else undefined)
unfolding read_key
read_key-terminated ls h =
    ap (λ x. read_lines x []) (lines-terminated ls h) ∙ read_lines-terminated ls [] h (omega arith)
