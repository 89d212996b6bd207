-- ===== src/Tests/Texts.antt =====
-- `split`, `is_number`, `stoi` and `std::to_string` at small inputs.
use secure_person2person_p2p.Base.{
  ℕ, ◌≡◌, ◌≢◌, ◌<◌, refl, ◌⊎◌, inl, inr, [], ◌∷◌, codes, c_str, arith,
}
use secure_person2person_p2p.Text.Split.{split}
use secure_person2person_p2p.Text.Split.Fields.{fields, split-fields}
use secure_person2person_p2p.Text.Split.Tokens.{IsToken}

-- "a##b" has the parts "a" and "b".
split_empty_field : split (codes "a##b") (codes "#") ≡ codes "a" ∷ (codes "b" ∷ [])
unfolding split
split_empty_field = refl

split-fields_example :
    split (codes "##alice#8001") (codes "#")
    ≡ fields (c_str (codes "#")) (c_str (codes "##alice#8001")) []
split-fields_example = split-fields (codes "##alice#8001") (codes "#")

no_byte : (a b : ℕ) → (a < b) ⊎ (b < a) → a ≢ b
no_byte a b (inl l) = λ e. absurd (omega arith)
no_byte a b (inr l) = λ e. absurd (omega arith)

pub ab-IsToken : IsToken b'#' (codes "ab")
ab-IsToken = (
  (λ e. cc),
  (no_byte _ _ (inr (omega arith)), (no_byte _ _ (inr (omega arith)), tt)),
  (no_byte _ _ (inr (omega arith)), (no_byte _ _ (inr (omega arith)), tt)),
)

pub n5-IsToken : IsToken b'#' (codes "5")
n5-IsToken =
    ((λ e. cc), (no_byte _ _ (inr (omega arith)), tt), (no_byte _ _ (inr (omega arith)), tt))
