-- ===== src/Server/Accepting.antt =====
-- The loop of `main`: what it does with a connection, and what it tells of those that wait.
use secure_person2person_p2p.Base.{
  ℕ, ◌+◌, ◌≡◌, [], ◌∷◌, ◌++◌, Option, none, some, if◌then◌else◌, Bytes, codes, ℤ, pos, ◌-ℤ◌, ltb_ℤ,
  int_laws,
}
use secure_person2person_p2p.Text.Number.{to_string}
use secure_person2person_p2p.Database.Storage.{Storage}
use secure_person2person_p2p.Server.State.{World}
use secure_person2person_p2p.Server.Handler.{Peer}
use secure_person2person_p2p.Server.System.{System, accepted}

abbrev pub crowd : ℤ → ℤ → Bytes
crowd all late =
    to_string all
    ++ (codes " users attempting to connect. "
        ++ (to_string late ++ codes " users might have to wait.\n"))

-- What is printed, and the server behind the round; `none` if it exits with status 1.
pub record Round (Table : Type 0) : Type 0 where
  pub text : Bytes
  pub after : Option (System Table)

abbrev pub warning : {Table : Type 0} → ℤ → World Table → Bytes
warning limit w =
    if ltb_ℤ limit w.tmp_current_user
    then crowd w.tmp_current_user (w.tmp_current_user -ℤ w.current_user)
    else []

-- A round of the loop, from what `accept` gave: a connection, or a negative number.
unfoldable pub accept_round : {Table : Type 0} → ℤ → Option Peer → System Table → Round Table
accept_round limit none s = record { text = warning limit (accepted s.world); after = none }
accept_round limit (some peer) s = record {
  text = warning limit (accepted s.world);
  after = some (record s { world = accepted s.world; waiting = s.waiting ++ peer ∷ [] });
}

late : (m n : ℕ) → pos (m + n) -ℤ pos n ≡ pos m
late m n = omega int_laws
