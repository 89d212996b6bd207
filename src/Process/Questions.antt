-- ===== src/Process/Questions.antt =====
-- A question that is asked until a letter answers it: the loops of `check_db_status` in
-- src/server.cpp and of `login_server` in src/client.cpp.
use secure_person2person_p2p.Base.{
  ℕ, ◌≡◌, ap, ◌∙◌, List, [], ◌∷◌, ◌++◌, append_assoc, append-nil, Option, none, some, ◌==◌,
  if◌then◌else◌, inl, inr, Bool-cases, All, Bytes,
}
use secure_person2person_p2p.Process.{Result, done, waits}
use secure_person2person_p2p.Process.Console.{Console, Io}

-- The inner and the outer loop from a `scanf` on: a newline is skipped, and any other byte that is no
-- answer has the question printed again.
unfoldable pub await :
    {A : Type 0} → (ℕ → Option A) → Bytes → Bytes → Bytes → List Bytes → Result A × Console
await answer question [] output commands =
    (waits, record { input = []; output = output; commands = commands })
await answer question (c ∷ rest) output commands =
    let again =
      await answer question rest (if c == b'\n' then output else output ++ question) commands in
    elim (answer c) [
      | some a ↦ (done a, record { input = rest; output = output; commands = commands })
      | none ↦ again
    ]

unfoldable pub ask : {A : Type 0} → (ℕ → Option A) → Bytes → Io A
unfolding await
ask answer question c = await answer question (c.input) (c.output ++ question) (c.commands)

-- The question as often as a line of bytes has it asked again.
pub asked : Bytes → Bytes → Bytes
asked question [] = []
asked question (c ∷ s) = if c == b'\n' then asked question s else question ++ asked question s

module _ {A : Type 0} (answer : ℕ → Option A) (question : Bytes) where
  await-answer :
      (noise : Bytes) (c : ℕ) (a : A) (rest output : Bytes) (commands : List Bytes)
      → All (λ b. answer b ≡ none) noise
      → answer c ≡ some a
      → await answer question (noise ++ (c ∷ rest)) output commands ≡ (
        done a,
        record { input = rest; output = output ++ asked question noise; commands = commands },
      )
  unfolding await asked
  await-answer [] c a rest output commands h e = rw (e, append-nil output)
  await-answer (b ∷ noise) c a rest output commands h e = elim (Bool-cases (b == b'\n')) [
    | inl newline ↦ rw (h.0, newline) (await-answer noise c a rest output commands h.1 e)
    | inr other ↦
        rw (h.0, other)
          (await-answer noise c a rest (output ++ question) commands h.1 e
            ∙ ap (λ o. (done a, record { input = rest; output = o; commands = commands }))
                (append_assoc output question (asked question noise)))
  ]

  -- The first byte that is an answer ends the loop, and what is typed behind it stays.
  pub ask-answer :
      (noise : Bytes) (c : ℕ) (a : A) (rest : Bytes) (now : Console)
      → All (λ b. answer b ≡ none) noise
      → answer c ≡ some a
      → now.input ≡ noise ++ (c ∷ rest)
      → ask answer question now ≡ (
        done a,
        record {
          input = rest;
          output = now.output ++ question ++ asked question noise;
          commands = now.commands;
        },
      )
  unfolding ask
  ask-answer noise c a rest now h e i =
      ap (λ s. await answer question s (now.output ++ question) now.commands) i
      ∙ await-answer noise c a rest (now.output ++ question) now.commands h e
