-- ===== src/Server/Start/Questions.antt =====
-- The two questions of `check_db_status`.
use secure_person2person_p2p.Base.{
  ℕ, ◌≡◌, ◌≢◌, refl, ◌∙◌, true, false, not, Bool, ◌∷◌, ◌++◌, none, some, Bytes, All,
}
use secure_person2person_p2p.Process.{done}
use secure_person2person_p2p.Process.Console.{Console, bind_done, pure_lem}
use secure_person2person_p2p.Process.Questions.{ask, asked, ask-answer}
use secure_person2person_p2p.Server.Start.{
  yes_or_no, alive_question, reset_question, check_db_status,
}

-- Where letters that are read as answers are typed behind such as are not.
pub check_db_status_lem :
    (noise noise' : Bytes) (a b : ℕ) (alive reset : Bool) (rest : Bytes) (c : Console)
    → All (λ x. yes_or_no x ≡ none) noise
    → yes_or_no a ≡ some alive
    → All (λ x. yes_or_no x ≡ none) noise'
    → yes_or_no b ≡ some reset
    → c.input ≡ noise ++ (a ∷ (noise' ++ (b ∷ rest)))
    → check_db_status c ≡ (
      done (not alive, reset),
      record {
        input = rest;
        output =
            c.output
            ++ alive_question
            ++ asked alive_question noise
            ++ reset_question
            ++ asked reset_question noise';
        commands = c.commands;
      },
    )
unfolding check_db_status
check_db_status_lem noise noise' a b alive reset rest c h e h' e' i =
    bind_done (ask yes_or_no alive_question) _ c alive _
      (ask-answer yes_or_no alive_question noise a alive (noise' ++ (b ∷ rest)) c h e i)
    ∙ bind_done (ask yes_or_no reset_question) _ _ reset _
        (ask-answer yes_or_no reset_question noise' b reset rest _ h' e' refl)
    ∙ pure_lem _ _

-- What the letters mean that the questions name.
pub data Says : ℕ → Bool → Type 0 where
  upper_yes : Says b'Y' true
  lower_yes : Says b'y' true
  upper_no : Says b'N' false
  lower_no : Says b'n' false

abbrev pub IsNoise : ℕ → Type 0
IsNoise x = (x ≢ b'Y') × (x ≢ b'y') × (x ≢ b'N') × (x ≢ b'n')
