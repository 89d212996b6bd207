-- ===== src/Client/Messages.antt =====
-- What the server's `parse_command` makes of the client's messages.
use secure_person2person_p2p.Base.{
  ℕ, ◌≡◌, ◌≢◌, ◌<◌, ◌⊎◌, refl, ◌∙◌, inl, inr, List, [], ◌∷◌, if◌then◌else◌, Bytes, bytes_eq, codes,
  Lacks, ℤ, pos, arith,
}
use secure_person2person_p2p.Text.Split.{split}
use secure_person2person_p2p.Text.Split.Tokens.{IsToken, joined, split-joined}
use secure_person2person_p2p.Text.Number.{to_string}
use secure_person2person_p2p.Text.Number.Decimal.{
  is_number-to_string, is_number-natural, to_string-Lacks, to_string-ne-nil,
}
use secure_person2person_p2p.Server.Commands.{
  CmdType, register, login, transaction, exit, classify, parse_command,
}
use secure_person2person_p2p.Client.Requests.{
  register_message, login_message, transact_message, list_message, exit_message,
}

pub number-IsToken : (a : ℤ) → IsToken b'#' (to_string a)
number-IsToken a = (
  to_string-ne-nil a,
  to_string-Lacks b'#' a (λ e. absurd (omega arith)) (inl (omega arith)),
  to_string-Lacks 0 a (λ e. absurd (omega arith)) (inl (omega arith)),
)

apart : (a b : ℕ) → (a < b) ⊎ (b < a) → a ≢ b
apart a b (inl h) e = absurd (omega arith)
apart a b (inr h) e = absurd (omega arith)

word-IsToken : IsToken b'#' (codes "REGISTER")
word-IsToken = ((λ e. cc), letters b'#' (omega arith), letters 0 (omega arith))
  where
    letters : (d : ℕ) → d < b'A' → Lacks d (codes "REGISTER")
    letters d h =
        let big : (c : ℕ) → d < c → c ≢ d = λ c l e. absurd (omega arith) in
        (
          big b'R' (omega arith),
          (
            big b'E' (omega arith),
            (
              big b'G' (omega arith),
              (
                big b'I' (omega arith),
                (
                  big b'S' (omega arith),
                  (big b'T' (omega arith), (big b'E' (omega arith), (big b'R' (omega arith), tt))),
                ),
              ),
            ),
          ),
        )

parse_joined :
    (s : Bytes) (ss : List Bytes)
    → split (joined b'#' s ss) (codes "#") ≡ s ∷ ss
    → parse_command (joined b'#' s ss) ≡ (classify (s ∷ ss), s ∷ ss)
unfolding parse_command
parse_joined s ss e = rw e

-- A registration of a name that is not empty and holds no `#` and no NUL is read as one, with the
-- name.
pub parse_command-register_message :
    (name : Bytes)
    → IsToken b'#' name
    → parse_command (register_message name) ≡ (register, codes "REGISTER" ∷ (name ∷ []))
parse_command-register_message name h =
    parse_joined (codes "REGISTER") (name ∷ []) (
      split-joined b'#' (codes "REGISTER") (name ∷ []) (λ e. absurd (omega arith)) word-IsToken
        (h, tt))
    ∙ (unfold classify bytes_eq in refl)

-- A login under a name that is not empty and holds no `#` and no NUL is read as one, with the name
-- and the port, except that a user of the name REGISTER registers the port as a name.
pub parse_command-login_message :
    (name : Bytes) (port : ℕ)
    → IsToken b'#' name
    → parse_command (login_message name (pos port)) ≡ (
      if bytes_eq name (codes "REGISTER") then register else login,
      name ∷ (to_string (pos port) ∷ []),
    )
parse_command-login_message name port h =
    parse_joined name (to_string (pos port) ∷ []) (
      split-joined b'#' name (to_string (pos port) ∷ []) (λ e. absurd (omega arith)) h
        (number-IsToken (pos port), tt))
    ∙ (unfold classify in rw (is_number-natural port))

-- A transfer between names that are not empty and hold no `#` and no NUL is read as one, with the
-- names and the amount, whatever the amount.
pub parse_command-transact_message :
    (snd : Bytes) (amount : ℤ) (rcv : Bytes)
    → IsToken b'#' snd
    → IsToken b'#' rcv
    → parse_command (transact_message snd amount rcv)
      ≡ (transaction, snd ∷ (to_string amount ∷ (rcv ∷ [])))
parse_command-transact_message snd amount rcv h k =
    parse_joined snd (to_string amount ∷ (rcv ∷ [])) (
      split-joined b'#' snd (to_string amount ∷ (rcv ∷ [])) (λ e. absurd (omega arith)) h
        (number-IsToken amount, (k, tt)))
    ∙ (unfold classify in rw (is_number-to_string amount))

-- The two requests without arguments.
pub list-read : parse_command list_message ≡ (CmdType.list, codes "List" ∷ [])
unfolding parse_command split bytes_eq
list-read = refl

pub exit-read : parse_command exit_message ≡ (exit, codes "Exit" ∷ [])
unfolding parse_command split bytes_eq
exit-read = refl
