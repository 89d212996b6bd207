-- ===== src/Database/Rows.antt =====
-- Lists of rows: the row of a user, unique keys, and what an update does to them.
use secure_person2person_p2p.Base.{
  length, ◌+◌, sym, ap, ◌∙◌, Bool-cases, inl, inr, ◌≡◌, refl, Bool, true, false, ◌&&◌, List, [],
  ◌∷◌, ◌++◌, map, Option, none, some, if◌then◌else◌, keep, All, Bytes, bytes_eq, bytes_eq_iff,
  arith,
}
use secure_person2person_p2p.Database.Storage.{Client, Row, columns, overwrite}
use secure_person2person_p2p.Database.Operations.{named}

-- The first row of a user.
abbrev pub find : Bytes → List Row → Option Row
find u [] = none
find u (r ∷ rs) = if named u r then some r else find u rs

-- No two rows have the same key.
abbrev pub IsUnique : List Row → Type 0
IsUnique [] = Unit
IsUnique (r ∷ rs) = (find r.username rs ≡ none) × IsUnique rs

abbrev pub to_list {ℓ} : {A : Type ℓ} → Option A → List A
to_list none = []
to_list (some a) = a ∷ []

-- The row that an update leaves where it found one.
abbrev pub replaced : Client → Option Row → Option Row
replaced c none = none
replaced c (some r) = some (columns c)

pub find-username : (u : Bytes) (rs : List Row) (r : Row) → find u rs ≡ some r → r.username ≡ u
find-username u [] r e = cc
find-username u (x ∷ rs) r e = ground (arith, bytes_eq_iff x.username u, find-username u rs r)

pub find-head :
    (u : Bytes) (x : Row) (rs : List Row) (r : Row)
    → bytes_eq x.username u ≡ true
    → find u (x ∷ rs) ≡ some r
    → x ≡ r
find-head u x rs r hit e = ground arith

pub find-tail :
    (u : Bytes) (x : Row) (rs : List Row) (r : Row)
    → bytes_eq x.username u ≡ false
    → find u (x ∷ rs) ≡ some r
    → find u rs ≡ some r
find-tail u x rs r miss e = ground arith

pub find-All :
    (u : Bytes) (rs : List Row) → find u rs ≡ none → All (λ r. bytes_eq r.username u ≡ false) rs
find-All u [] e = tt
find-All u (r ∷ rs) e = ground (arith, find-All u rs)

pub find-append :
    (u : Bytes) (rs : List Row) (r : Row)
    → find r.username rs ≡ none
    → find u (rs ++ r ∷ []) ≡ (if named u r then some r else find u rs)
find-append u [] r e = refl
find-append u (x ∷ rs) r e = ground (
  arith,
  bytes_eq_iff x.username r.username,
  bytes_eq_iff x.username u,
  bytes_eq_iff r.username u,
  find-append u rs r,
)

pub IsUnique-append :
    (rs : List Row) (r : Row) → IsUnique rs → find r.username rs ≡ none → IsUnique (rs ++ r ∷ [])
IsUnique-append [] r h e = (refl, tt)
IsUnique-append (x ∷ rs) r h e = ground (
  arith,
  find-append x.username rs r,
  bytes_eq_iff x.username r.username,
  bytes_eq_iff r.username x.username,
  IsUnique-append rs r h.1,
)

-- A query by key and a further test looks at the one row of the key.
pub keep-find :
    (u : Bytes) (q : Row → Bool) (rs : List Row)
    → IsUnique rs
    → keep (λ r. named u r && q r) rs ≡ keep q (to_list (find u rs))
keep-find u q [] h = refl
keep-find u q (x ∷ rs) h = ground (arith, bytes_eq_iff x.username u, keep-find u q rs h.1)

pub keep-named : (u : Bytes) (rs : List Row) → IsUnique rs → keep (named u) rs ≡ to_list (find u rs)
keep-named u [] h = refl
keep-named u (x ∷ rs) h = ground (arith, bytes_eq_iff x.username u, keep-named u rs h.1)

pub find-overwrite :
    (u : Bytes) (c : Client) (rs : List Row)
    → find u (map (overwrite c) rs)
      ≡ (if bytes_eq c.username u then replaced c (find u rs) else find u rs)
find-overwrite u c [] = ground arith
find-overwrite u c (x ∷ rs) = ground (
  arith,
  bytes_eq_iff x.username c.username,
  bytes_eq_iff x.username u,
  bytes_eq_iff c.username u,
  find-overwrite u c rs,
)

pub IsUnique-overwrite :
    (c : Client) (rs : List Row) → IsUnique rs → IsUnique (map (overwrite c) rs)
IsUnique-overwrite c [] h = tt
IsUnique-overwrite c (x ∷ rs) h = ground (
  arith,
  bytes_eq_iff x.username c.username,
  find-overwrite x.username c rs,
  find-overwrite c.username c rs,
  IsUnique-overwrite c rs h.1,
)

pub overwrite_absent :
    (c : Client) (rs : List Row) → find c.username rs ≡ none → map (overwrite c) rs ≡ rs
overwrite_absent c [] e = refl
overwrite_absent c (x ∷ rs) e = ground (arith, overwrite_absent c rs)

-- How many rows pass a test grows by one when an update makes a row pass that did not.
pub length-keep-overwrite :
    (q : Row → Bool) (c : Client) (rs : List Row) (r : Row)
    → IsUnique rs
    → find c.username rs ≡ some r
    → q r ≡ false
    → q (columns c) ≡ true
    → length (keep q (map (overwrite c) rs)) ≡ length (keep q rs) + 1
length-keep-overwrite q c [] r h e p n = cc
length-keep-overwrite q c (x ∷ rs) r h e p n = elim (Bool-cases (bytes_eq x.username c.username)) [
  | inl hit ↦
      let same : x ≡ r = find-head c.username x rs r hit e in
      let rest =
        overwrite_absent c rs (ap (λ u. find u rs) (sym ((bytes_eq_iff _ _).0 hit)) ∙ h.0) in
      ground (arith, rest, same)
  | inr miss ↦
      ground (arith, length-keep-overwrite q c rs r h.1 (find-tail c.username x rs r miss e) p n)
]

-- If no row passed before, the updated row is the only one.
pub keep-overwrite_only :
    (q : Row → Bool) (c : Client) (rs : List Row) (r : Row)
    → IsUnique rs
    → find c.username rs ≡ some r
    → keep q rs ≡ []
    → q (columns c) ≡ true
    → keep q (map (overwrite c) rs) ≡ columns c ∷ []
keep-overwrite_only q c [] r h e p n = cc
keep-overwrite_only q c (x ∷ rs) r h e p n = elim (Bool-cases (bytes_eq x.username c.username)) [
  | inl hit ↦
      let rest =
        overwrite_absent c rs (ap (λ u. find u rs) (sym ((bytes_eq_iff _ _).0 hit)) ∙ h.0) in
      ground (arith, rest)
  | inr miss ↦ ground (arith, keep-overwrite_only q c rs r h.1 (find-tail c.username x rs r miss e))
]
