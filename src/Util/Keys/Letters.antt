-- ===== src/Util/Keys/Letters.antt =====
-- The letters that `random_string` of include/util.hpp draws.
use secure_person2person_p2p.Base.{
  ℕ, zero, suc, ◌+◌, ◌-◌, ◌<◌, ◌≡◌, refl, sym, subst, ap, ◌∙◌, Bool, true, ◌&&◌, ◌||◌, ◌==◌,
  if◌then◌else◌, ltb, leb, [], ◌∷◌, ◌++◌, append_assoc, append-nil, some, length, Bytes, All, arith,
}
use secure_person2person_p2p.Process.{done}
use secure_person2person_p2p.Process.Console.{Console, bind_found, ◌>>=◌}
use secure_person2person_p2p.Util.Keys.{chrs, index, random_loop}

-- The digits are drawn by the numbers below 10, then come the small letters, then the capital ones.
abbrev pub letter : ℕ → ℕ
letter i = if ltb i 10 then b'0' + i else if ltb i 36 then b'a' + (i - 10) else b'A' + (i - 36)

-- What `n` draws give, from the draw `k` on.
abbrev pub letters : ℕ → (ℕ → ℕ) → ℕ → Bytes
letters zero draw k = []
letters (suc n) draw k = letter (draw k) ∷ letters n draw (suc k)

are_letters : ℕ → Bytes → Bool
are_letters k [] = true
are_letters k (c ∷ s) = c == letter k && are_letters (suc k) s

index-letter :
    (s : Bytes) (k i : ℕ)
    → are_letters k s ≡ true
    → i < length s
    → index s i ≡ some (letter (k + i))
unfolding are_letters
index-letter [] k i h l = absurd (omega arith)
index-letter (c ∷ s) k zero h l =
    let e : c ≡ letter k = ground arith in
    let same : k ≡ k + 0 = omega arith in ap some (e ∙ ap letter same)
index-letter (c ∷ s) k (suc i) h l =
    let g : are_letters (suc k) s ≡ true = ground arith in
    let same : suc k + i ≡ k + suc i = omega arith in
    index-letter s (suc k) i g (omega arith) ∙ ap (λ n. some (letter n)) same

pub index-chrs : (i : ℕ) → i < 62 → index chrs i ≡ some (letter i)
index-chrs i h =
    let same : 0 + i ≡ i = omega arith in
    index-letter chrs 0 i (unfold chrs are_letters in refl) (unfold chrs in h)
    ∙ ap (λ n. some (letter n)) same

-- A letter or a digit.
abbrev pub is_alnum : ℕ → Bool
is_alnum c =
    (leb b'0' c && leb c b'9') || ((leb b'a' c && leb c b'z') || (leb b'A' c && leb c b'Z'))

abbrev pub IsAlnum : ℕ → Type 0
IsAlnum c = is_alnum c ≡ true

all_alnum : Bytes → Bool
all_alnum [] = true
all_alnum (c ∷ s) = is_alnum c && all_alnum s

all_alnum_sound : (s : Bytes) → all_alnum s ≡ true → All IsAlnum s
unfolding all_alnum
all_alnum_sound [] h = tt
all_alnum_sound (c ∷ s) h = ground (arith, all_alnum_sound s)

chrs-IsAlnum : All IsAlnum chrs
chrs-IsAlnum = all_alnum_sound chrs (unfold chrs all_alnum in refl)

index-All :
    (s : Bytes) (i : ℕ) → All IsAlnum s → i < length s → (c : ℕ) × (index s i ≡ some c) × IsAlnum c
index-All [] i h l = absurd (omega arith)
index-All (c ∷ s) zero h l = (c, refl, h.0)
index-All (c ∷ s) (suc i) h l = index-All s i h.1 (omega arith)

drawn : (i : ℕ) → i < 62 → (c : ℕ) × (index chrs i ≡ some c) × IsAlnum c
drawn i h = index-All chrs i chrs-IsAlnum (unfold chrs in h)

pub random_loop_lem :
    (n : ℕ) (draw : ℕ → ℕ) (k : ℕ) (s : Bytes) (c : Console)
    → ((i : ℕ) → draw i < 62)
    → (random_loop n draw k s c ≡ (done (s ++ letters n draw k), c))
      × (length (letters n draw k) ≡ n)
      × All IsAlnum (letters n draw k)
unfolding random_loop
random_loop_lem zero draw k s c h = (unfold ◌>>=◌ in rw append-nil, refl, tt)
random_loop_lem (suc n) draw k s c h =
    let (d, e, a) = drawn (draw k) (h k) in
    let is_letter : some d ≡ some (letter (draw k)) = sym e ∙ index-chrs (draw k) (h k) in
    let same : d ≡ letter (draw k) = cc in
    let (f, l, b) = random_loop_lem n draw (suc k) (s ++ d ∷ []) c h in
    (
      bind_found (index chrs (draw k)) d _ c e
          ∙ f
          ∙ ap (λ t. (done t, c))
              (append_assoc s (d ∷ []) (letters n draw (suc k))
                ∙ ap (λ x. s ++ (x ∷ letters n draw (suc k))) same),
      ap suc l,
      (subst IsAlnum same a, b),
    )
