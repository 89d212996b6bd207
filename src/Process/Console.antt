-- ===== src/Process/Console.antt =====
-- The terminal and the shell: what was typed and not read yet, what was printed, and the commands
-- that were given to `system`.
use secure_person2person_p2p.Base.{
  ℕ, ◌≡◌, refl, ap, List, [], ◌∷◌, ◌++◌, Option, none, some, if◌then◌else◌, Bytes, true, false, All,
  append_assoc, append-nil, ◌≢◌, ◌⊎◌, inl, inr, ◌∙◌,
}
use secure_person2person_p2p.Text.Number.{Except, ok, throw, is_space, skip_spaces}
use secure_person2person_p2p.Process.{Result, done, threw, exited, undefined, waits}

pub record Console : Type 0 where
  pub input : Bytes
  pub output : Bytes
  pub commands : List Bytes

abbrev pub Io : Type 0 → Type 0
Io A = Console → Result A × Console

module _ {A : Type 0} where
  pub pure : A → Io A
  pure a c = (done a, c)

  pub exit : ℕ → Io A
  exit status c = (exited status, c)

  pub go_wrong : Io A
  go_wrong c = (undefined, c)

  pub or_throw : Except A → Io A
  or_throw (ok a) c = (done a, c)
  or_throw (throw e) c = (threw e, c)

  pub or_undefined : Option A → Io A
  or_undefined (some a) c = (done a, c)
  or_undefined none c = (undefined, c)

  -- A step that does nothing with the console.
  pub lift : Result A → Io A
  lift r c = (r, c)

pub print : Bytes → Io (Unit {0})
print s c = (done tt, record c { output = c.output ++ s })

pub system : Bytes → Io (Unit {0})
system s c = (done tt, record c { commands = c.commands ++ s ∷ [] })

-- `scanf("%c", …)`: the next byte that was typed.
pub read_byte : Io ℕ
read_byte c = elim (c.input) [ [] ↦ (waits, c) | b ∷ rest ↦ (done b, record c { input = rest }) ]

-- The bytes up to the next white space, which ends a word; `none` if it was not typed yet.
unfoldable pub scan_word : Bytes → Bytes → Option (Bytes × Bytes)
scan_word word [] = none
scan_word word (c ∷ s) =
    let more = scan_word (word ++ c ∷ []) s in if is_space c then some (word, c ∷ s) else more

-- `scanf("%s", …)`.
pub read_word : Io Bytes
unfolding scan_word skip_spaces
read_word c = elim (scan_word [] (skip_spaces c.input)) [
  | none ↦ (waits, record c { input = [] })
  | some (word, rest) ↦ (done word, record c { input = rest })
]

-- What follows a step that has ended.
abbrev pub follow : {A B : Type 0} → Result A × Console → (A → Io B) → Result B × Console
follow (done a, c) f = f a c
follow (threw e, c) f = (threw e, c)
follow (exited n, c) f = (exited n, c)
follow (undefined, c) f = (undefined, c)
follow (waits, c) f = (waits, c)

infixl 5 ◌>>=◌ ◌>>◌
-- Opening this opens the actions above too.
unfoldable pub ◌>>=◌ : {A B : Type 0} → Io A → (A → Io B) → Io B
unfolding pure exit go_wrong or_throw or_undefined lift print system read_byte read_word
◌>>=◌ m f c = follow (m c) f

abbrev pub ◌>>◌ : {A B : Type 0} → Io A → Io B → Io B
m >> k = m >>= λ _. k

-- A value that is there.
pub bind_found :
    {A B : Type 0} (o : Option A) (a : A) (f : A → Io B) (c : Console)
    → o ≡ some a
    → (or_undefined o >>= f) c ≡ f a c
unfolding ◌>>=◌
bind_found o a f c e = rw e

-- The first step of a block.
pub bind_done :
    {A B : Type 0} (m : Io A) (f : A → Io B) (c : Console) (a : A) (c' : Console)
    → m c ≡ (done a, c')
    → (m >>= f) c ≡ f a c'
unfolding ◌>>=◌
bind_done m f c a c' e = ap (λ x. follow x f) e

pub bind_print :
    {B : Type 0} (s : Bytes) (f : Unit {0} → Io B) (c : Console)
    → (print s >>= f) c ≡ f tt (record c { output = c.output ++ s })
unfolding ◌>>=◌
bind_print s f c = refl

pub pure_lem : {A : Type 0} (a : A) (c : Console) → pure a c ≡ (done a, c)
unfolding ◌>>=◌
pure_lem a c = refl

pub print_lem :
    (s : Bytes) (c : Console) → print s c ≡ (done tt, record c { output = c.output ++ s })
unfolding ◌>>=◌
print_lem s c = refl

-- A word without white space, with some behind it.
scan_word-spaced :
    (acc word rest : Bytes) (b : ℕ)
    → All (λ c. is_space c ≡ false) word
    → is_space b ≡ true
    → scan_word acc (word ++ (b ∷ rest)) ≡ some (acc ++ word, b ∷ rest)
unfolding scan_word
scan_word-spaced acc [] rest b h e = rw (e, append-nil acc)
scan_word-spaced acc (c ∷ word) rest b h e = rw (h.0) (
    scan_word-spaced (acc ++ c ∷ []) word rest b h.1 e
    ∙ ap (λ w. some (w, b ∷ rest)) (append_assoc acc (c ∷ []) word))

skip_spaces-word :
    (word rest : Bytes)
    → word ≢ []
    → All (λ c. is_space c ≡ false) word
    → skip_spaces (word ++ rest) ≡ word ++ rest
unfolding skip_spaces
skip_spaces-word [] rest n h = absurd (n refl)
skip_spaces-word (c ∷ word) rest n h = rw (h.0)

read_word-found :
    (c : Console) (word rest : Bytes)
    → scan_word [] (skip_spaces c.input) ≡ some (word, rest)
    → read_word c ≡ (done word, record c { input = rest })
unfolding ◌>>=◌
read_word-found c word rest e = rw (e, read_word)

-- A word that is not empty is read at once, or behind a newline.
pub read_word-spaced :
    (word rest : Bytes) (b : ℕ) (c : Console)
    → word ≢ []
    → All (λ x. is_space x ≡ false) word
    → is_space b ≡ true
    → (c.input ≡ word ++ (b ∷ rest)) ⊎ (c.input ≡ b'\n' ∷ (word ++ (b ∷ rest)))
    → read_word c ≡ (done word, record c { input = b ∷ rest })
unfolding skip_spaces
read_word-spaced word rest b c n h e i =
    read_word-found c word (b ∷ rest)
      (ap (scan_word []) (skipped i) ∙ scan_word-spaced [] word rest b h e)
  where
    skipped :
        (c.input ≡ word ++ (b ∷ rest)) ⊎ (c.input ≡ b'\n' ∷ (word ++ (b ∷ rest)))
        → skip_spaces c.input ≡ word ++ (b ∷ rest)
    skipped (inl i) = ap skip_spaces i ∙ skip_spaces-word word (b ∷ rest) n h
    skipped (inr i) = ap skip_spaces i ∙ skip_spaces-word word (b ∷ rest) n h
