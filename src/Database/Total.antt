-- ===== src/Database/Total.antt =====
-- The sum of the balances of a list of rows.
use secure_person2person_p2p.Base.{
  ◌≡◌, sym, ap, ◌∙◌, false, List, [], ◌∷◌, ◌++◌, map, some, All, Bytes, bytes_eq, bytes_eq_iff, ℤ,
  pos, ◌+ℤ◌, ◌≤ℤ◌, int_laws, pos_part, neg_part, arith, Bool-cases, inl, inr,
}
use secure_person2person_p2p.Database.Storage.{Client, Row, overwrite}
use secure_person2person_p2p.Database.Rows.{find, find-head, find-tail, IsUnique, overwrite_absent}

abbrev pub total : List Row → ℤ
total [] = pos 0
total (r ∷ rs) = r.balance +ℤ total rs

abbrev pub AllNonneg : List Row → Type 0
AllNonneg = All (λ r. pos 0 ≤ℤ r.balance)

pub total-append : (rs : List Row) (r : Row) → total (rs ++ r ∷ []) ≡ total rs +ℤ r.balance
total-append [] r = omega int_laws
total-append (x ∷ rs) r = rw (total-append rs r) (omega int_laws)

pub total-nonneg : (rs : List Row) → AllNonneg rs → pos 0 ≤ℤ total rs
total-nonneg [] h = omega arith
total-nonneg (x ∷ rs) h = omega (int_laws, total-nonneg rs h.1)

add_under : (a b c d e : ℤ) → b +ℤ c ≡ d +ℤ e → a +ℤ b +ℤ c ≡ a +ℤ d +ℤ e
add_under a b c d e p = omega (int_laws, ap pos_part p, ap neg_part p)

-- An update changes the sum by what it changes in its row.
pub total-overwrite :
    (c : Client) (rs : List Row) (r : Row)
    → IsUnique rs
    → find c.username rs ≡ some r
    → total (map (overwrite c) rs) +ℤ r.balance ≡ total rs +ℤ c.balance
total-overwrite c [] r h e = cc
total-overwrite c (x ∷ rs) r h e = elim (Bool-cases (bytes_eq x.username c.username)) [
  | inl hit ↦
      let name : x.username ≡ c.username = (bytes_eq_iff _ _).0 hit in
      let same : x ≡ r = find-head c.username x rs r hit e in
      let rest = overwrite_absent c rs (ap (λ u. find u rs) (sym name) ∙ h.0) in
      rw (hit, rest, ← same) (omega int_laws)
  | inr miss ↦ rw miss (other (total-overwrite c rs r h.1 (find-tail c.username x rs r miss e)))
]
  where
    other :
        total (map (overwrite c) rs) +ℤ r.balance ≡ total rs +ℤ c.balance
        → x.balance +ℤ total (map (overwrite c) rs) +ℤ r.balance
          ≡ x.balance +ℤ total rs +ℤ c.balance
    other p = add_under x.balance _ _ _ _ p

pub AllNonneg-overwrite :
    (c : Client) (rs : List Row)
    → AllNonneg rs
    → pos 0 ≤ℤ c.balance
    → AllNonneg (map (overwrite c) rs)
AllNonneg-overwrite c [] h p = tt
AllNonneg-overwrite c (x ∷ rs) h p = ground (arith, AllNonneg-overwrite c rs h.1)

pub find-nonneg :
    (u : Bytes) (rs : List Row) (r : Row) → AllNonneg rs → find u rs ≡ some r → pos 0 ≤ℤ r.balance
find-nonneg u [] r h e = cc
find-nonneg u (x ∷ rs) r h e = ground (arith, find-nonneg u rs r h.1)

pub balance-le-total :
    (u : Bytes) (rs : List Row) (r : Row)
    → AllNonneg rs
    → find u rs ≡ some r
    → r.balance ≤ℤ total rs
balance-le-total u [] r h e = cc
balance-le-total u (x ∷ rs) r h e = elim (Bool-cases (bytes_eq x.username u)) [
  | inl hit ↦
      let same : x ≡ r = find-head u x rs r hit e in
      rw (← same) (omega (int_laws, total-nonneg rs h.1))
  | inr miss ↦ omega (int_laws, h.0, balance-le-total u rs r h.1 (find-tail u x rs r miss e))
]

-- So do two of them together.
pub balances-le-total :
    (u w : Bytes) (rs : List Row) (r s : Row)
    → AllNonneg rs
    → bytes_eq u w ≡ false
    → find u rs ≡ some r
    → find w rs ≡ some s
    → r.balance +ℤ s.balance ≤ℤ total rs
balances-le-total u w [] r s h ne e f = cc
balances-le-total u w (x ∷ rs) r s h ne e f = elim (Bool-cases (bytes_eq x.username u)) [
  | inl hit ↦
      let same : x ≡ r = find-head u x rs r hit e in
      let miss : bytes_eq x.username w ≡ false = ground (arith, bytes_eq_iff x.username u) in
      rw (← same) (omega (int_laws, balance-le-total w rs s h.1 (find-tail w x rs s miss f)))
  | inr miss ↦ elim (Bool-cases (bytes_eq x.username w)) [
    | inl hit ↦
        let same : x ≡ s = find-head w x rs s hit f in
        rw (← same) (omega (int_laws, balance-le-total u rs r h.1 (find-tail u x rs r miss e)))
    | inr miss' ↦ omega (
      int_laws,
      h.0,
      balances-le-total u w rs r s h.1 ne (find-tail u x rs r miss e) (find-tail w x rs s miss' f),
    )
  ]
]
