-- ===== src/Server/Ports.antt =====
-- A login with a port that is a number but no `int`.
use secure_person2person_p2p.Base.{
  ◌<◌, ◌≡◌, ◌≢◌, refl, ◌∙◌, false, [], ◌∷◌, ◌++◌, All, Bytes, bytes_eq, bytes_eq-append, codes, ℤ,
  eq_ℤ, int_max, arith, inl,
}
use secure_person2person_p2p.Text.Split.Tokens.{IsToken, split-joined}
use secure_person2person_p2p.Text.Number.{throw, out_of_range, scan, stoi}
use secure_person2person_p2p.Text.Number.Decimal.{
  IsDigit, All-Lacks, is_number-IsDigit, stoi-digits_value,
}
use secure_person2person_p2p.Database.Storage.{Storage}
use secure_person2person_p2p.Database.Amount.{Double}
use secure_person2person_p2p.Database.Operations.{minus_one}
use secure_person2person_p2p.Util.Rsa.{OpenSsl}
use secure_person2person_p2p.Server.Commands.{login, classify, parse_command}
use secure_person2person_p2p.Server.State.{World, ◌>>=◌}
use secure_person2person_p2p.Process.{threw}
use secure_person2person_p2p.Server.Handler.{Peer, serve_login, dispatch, handle}

stoi_large :
    (port : Bytes)
    → port ≢ []
    → All IsDigit port
    → int_max < scan port 0
    → stoi port ≡ throw out_of_range
stoi_large [] h d l = absurd (h refl)
stoi_large (c ∷ s) h d l = stoi-digits_value (c ∷ s) d ∙ ground arith

port-IsToken : (port : Bytes) → port ≢ [] → All IsDigit port → IsToken b'#' port
port-IsToken port h d =
    (h, All-Lacks b'#' port (inl (omega arith)) d, All-Lacks 0 port (inl (omega arith)) d)

read_login :
    (name port : Bytes)
    → bytes_eq name (codes "REGISTER") ≡ false
    → IsToken b'#' name
    → port ≢ []
    → All IsDigit port
    → parse_command (name ++ (codes "#" ++ port)) ≡ (login, name ∷ (port ∷ []))
unfolding parse_command classify
read_login name port e h ne d = rw (
  split-joined b'#' name (port ∷ []) (λ z. absurd (omega arith)) h (port-IsToken port ne d, tt),
  parse_command,
  classify,
  e,
  (is_number-IsDigit port).1 d,
)

module _ {Table D Key : Type 0} (st : Storage Table) (num : Double D) (ssl : OpenSsl Key)
    (private_key : Bytes) where
  -- A login under a name other than REGISTER, not empty and without `#` and NUL, and with a port that
  -- consists of digits and is larger than any `int`, received without an error, ends in the exception
  -- `out_of_range`, and leaves the server's state as it was.
  pub handle_large_port :
      (peer : Peer) (username : Bytes) (n : ℤ) (name port : Bytes) (w : World Table)
      → eq_ℤ n minus_one ≡ false
      → bytes_eq name (codes "REGISTER") ≡ false
      → IsToken b'#' name
      → port ≢ []
      → All IsDigit port
      → int_max < scan port 0
      → handle st num ssl private_key peer username n (name ++ (codes "#" ++ port)) w
        ≡ (threw out_of_range, w)
  unfolding handle dispatch serve_login ◌>>=◌
  handle_large_port peer username n name port w e q h ne d l = rw (
    e,
    bytes_eq-append name (codes "#" ++ port) h.0,
    read_login name port q h ne d,
    handle,
    dispatch,
    serve_login,
    stoi_large port ne d l,
  )
