-- ===== src/Server/Entries.antt =====
-- What becomes of the entries of `client_fds` in src/server.cpp at the end of a thread, in words that do
-- not run over the list.
use secure_person2person_p2p.Base.{
  ◌≡◌, ◌≢◌, refl, ap, false, true, Bool-cases, All, ◌⊎◌, inl, inr, List, [], ◌∷◌, ◌++◌, Option,
  none, some, Bytes, bytes_eq, bytes_eq_iff, ℤ, pos, negsuc, eq_ℤ, arith, sym, ◌∙◌,
}
use secure_person2person_p2p.Server.State.{forget, erase_client}

abbrev pub Entries : Type 0
Entries = List (Bytes × Option ℤ)

-- The first entry of the name is gone, if there is one, and every other is there in its place.
abbrev pub IsErased : Bytes → Entries → Entries → Type 0
IsErased name fds fds' =
    (All (λ e. bytes_eq e.0 name ≡ false) fds × (fds' ≡ fds))
    ⊎ ((before : Entries) × (pointer : Option ℤ) × (after : Entries) × (fds
          ≡ before ++ ((name, pointer) ∷ after))
        × All (λ e. bytes_eq e.0 name ≡ false) before
        × (fds' ≡ before ++ after))

pub erase_client-IsErased :
    (name : Bytes) (fds : Entries) → IsErased name fds (erase_client name fds)
unfolding erase_client
erase_client-IsErased name [] = inl (tt, refl)
erase_client-IsErased name ((other, pointer) ∷ fds) = elim (Bool-cases (bytes_eq other name)) [
  | inl same ↦
      let e = (bytes_eq_iff other name).0 same in
      rw (same, erase_client) (inr ([], pointer, fds, ap (λ n. (n, pointer) ∷ fds) e, tt, refl))
  | inr differ ↦
      let s : erase_client name ((other, pointer) ∷ fds)
          ≡ (other, pointer) ∷ erase_client name fds =
        rw (differ, erase_client) refl in
      elim (erase_client-IsErased name fds) [
        | inl (h, e) ↦ inl ((differ, h), s ∙ ap (◌∷◌ (other, pointer)) e)
        | inr (before, found, after, e, h, d) ↦ inr (
          (other, pointer) ∷ before,
          found,
          after,
          ap (◌∷◌ (other, pointer)) e,
          (differ, h),
          s ∙ ap (◌∷◌ (other, pointer)) d,
        )
      ]
]

-- Of each entry the name stays; a pointer to `fd` dangles now, and any other is as it was.
pub data Dangles (fd : ℤ) : Entries → Entries → Type 0 where
  no_entry : Dangles fd [] []
  dangles :
      {name : Bytes} {fds fds' : Entries}
      → Dangles fd fds fds'
      → Dangles fd ((name, some fd) ∷ fds) ((name, none) ∷ fds')
  stays :
      {name : Bytes} {pointer : Option ℤ} {fds fds' : Entries}
      → pointer ≢ some fd
      → Dangles fd fds fds'
      → Dangles fd ((name, pointer) ∷ fds) ((name, pointer) ∷ fds')

eq_ℤ_sound : (a b : ℤ) → eq_ℤ a b ≡ true → a ≡ b
eq_ℤ_sound (pos m) (pos n) h = ap pos (ground arith)
eq_ℤ_sound (pos m) (negsuc n) h = cc
eq_ℤ_sound (negsuc m) (pos n) h = cc
eq_ℤ_sound (negsuc m) (negsuc n) h = ap negsuc (ground arith)

eq_ℤ_refl : (a : ℤ) → eq_ℤ a a ≡ true
eq_ℤ_refl (pos m) = ground arith
eq_ℤ_refl (negsuc m) = ground arith

differs : (a b : ℤ) → eq_ℤ a b ≡ false → some a ≢ some b
differs a b h e =
    let i : a ≡ b = cc in let j : true ≡ false = sym (eq_ℤ_refl a) ∙ ap (eq_ℤ a) i ∙ h in cc

pub forget-Dangles : (fd : ℤ) (fds : Entries) → Dangles fd fds (forget fd fds)
unfolding forget
forget-Dangles fd [] = no_entry
forget-Dangles fd ((name, none) ∷ fds) = stays (λ e. cc) (forget-Dangles fd fds)
forget-Dangles fd ((name, some connection) ∷ fds) = elim (Bool-cases (eq_ℤ connection fd)) [
  | inl same ↦
      let e = eq_ℤ_sound connection fd same in
      rw (same, forget, e) (dangles (forget-Dangles fd fds))
  | inr differ ↦ rw (differ, forget) (stays (differs connection fd differ) (forget-Dangles fd fds))
]
