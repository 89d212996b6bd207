-- ===== src/Client/Lookup.antt =====
-- The user that the client looks up before a transfer.
use secure_person2person_p2p.Base.{
  ◌≡◌, refl, inl, inr, List, [], ◌∷◌, map, All, Bytes, bytes_eq, c_str_whole, Lacks, Option, some,
  none, if◌then◌else◌, Bool-cases,
}
use secure_person2person_p2p.Text.Number.{not_found}
use secure_person2person_p2p.Database.Storage.{Client}
use secure_person2person_p2p.Process.{Result, done, threw}
use secure_person2person_p2p.Client.Peers.{find_peer_info}
use secure_person2person_p2p.Client.Lists.{IsListed, peer}

-- The first user of a name.
unfoldable pub listed : Bytes → List Client → Option Client
listed name [] = none
listed name (u ∷ us) = if bytes_eq name u.username then some u else listed name us

abbrev pub entry : Option Client → Result (List Bytes)
entry none = threw not_found
entry (some u) = done (peer u)

-- In the list that was read from the server's answer `find_peer_info` finds the entry of the first
-- user of the name, and throws `not_found` if there is none, where the name is a C string and the
-- users' names and addresses are not empty and hold no `#`, no newline and no NUL.
pub find_peer_info-listed :
    (name : Bytes) (us : List Client)
    → Lacks 0 name
    → All IsListed us
    → find_peer_info name (map peer us) ≡ entry (listed name us)
unfolding find_peer_info listed
find_peer_info-listed name [] h i = refl
find_peer_info-listed name (u ∷ us) h i =
    rw (c_str_whole name h, c_str_whole u.username i.0.0.no_nul)
      (elim (Bool-cases (bytes_eq name u.username)) [
        | inl e ↦ rw e
        | inr e ↦ rw e (find_peer_info-listed name us h i.1)
      ])
