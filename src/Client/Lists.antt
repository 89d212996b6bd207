-- ===== src/Client/Lists.antt =====
-- What the client reads in the server's answer to a login or to a request of the list.
use secure_person2person_p2p.Base.{
  ◌≡◌, ◌≢◌, ◌≤◌, refl, sym, ap, ◌∙◌, inl, List, [], ◌∷◌, ◌++◌, append-nil, append_assoc, map, All,
  Bytes, codes, c_str, c_str_whole, Lacks, ℤ, pos, length, InInt, int_max, arith,
}
use secure_person2person_p2p.Text.Split.{split}
use secure_person2person_p2p.Text.Split.Tokens.{
  IsToken, joined, terminated, split-joined, split-terminated, joined-Lacks, terminated-Lacks,
  nul-free,
}
use secure_person2person_p2p.Text.Number.{to_string}
use secure_person2person_p2p.Text.Number.Decimal.{stoi-to_string, to_string-Lacks, to_string-ne-nil}
use secure_person2person_p2p.Database.Storage.{Client}
use secure_person2person_p2p.Database.Operations.{user_line, list_info}
use secure_person2person_p2p.Process.{done}
use secure_person2person_p2p.Server.Handler.{info_response}
use secure_person2person_p2p.Client.Peers.{read_peers, read_info, with_int, parse_list_info}

-- A text that can stand between `#` and the end of a line.
pub record IsField (s : Bytes) : Type 0 where
  pub some_text : s ≢ []
  pub no_separator : Lacks b'#' s
  pub no_newline : Lacks b'\n' s
  pub no_nul : Lacks 0 s

-- A user who can stand in the list.
abbrev pub IsListed : Client → Type 0
IsListed u = IsField u.username × IsField u.ip × InInt u.private_port

-- The entry of `peer_list` for a user.
abbrev pub peer : Client → List Bytes
peer u = u.username ∷ (u.ip ∷ (to_string u.private_port ∷ []))

-- The line of a user, without its end.
abbrev line : Client → Bytes
line u = joined b'#' u.username (u.ip ∷ (to_string u.private_port ∷ []))

number-IsField : (a : ℤ) → IsField (to_string a)
number-IsField a = record {
  some_text = to_string-ne-nil a;
  no_separator = to_string-Lacks b'#' a (λ e. absurd (omega arith)) (inl (omega arith));
  no_newline = to_string-Lacks b'\n' a (λ e. absurd (omega arith)) (inl (omega arith));
  no_nul = to_string-Lacks 0 a (λ e. absurd (omega arith)) (inl (omega arith));
}

field-IsToken : (s : Bytes) → IsField s → IsToken b'#' s
field-IsToken s h = (h.some_text, h.no_separator, h.no_nul)

number-IsToken : (a : ℤ) → IsToken b'\n' (to_string a)
number-IsToken a = let h = number-IsField a in (h.some_text, h.no_newline, h.no_nul)

split-line : (u : Client) → IsListed u → split (line u) (codes "#") ≡ peer u
split-line u h =
    split-joined b'#' u.username (u.ip ∷ (to_string u.private_port ∷ []))
      (λ e. absurd (omega arith)) (field-IsToken u.username h.0)
      (field-IsToken u.ip h.1, (field-IsToken _ (number-IsField u.private_port), tt))

append-ne-nil : (s t : Bytes) → s ≢ [] → s ++ t ≢ []
append-ne-nil [] t h = absurd (h refl)
append-ne-nil (c ∷ s) t h = λ e. cc

line-IsToken : (u : Client) → IsListed u → IsToken b'\n' (line u)
line-IsToken u h =
    let n = number-IsField u.private_port in
    (
      append-ne-nil u.username _ h.0.some_text,
      joined-Lacks b'#' b'\n' u.username (u.ip ∷ (to_string u.private_port ∷ []))
          (λ e. absurd (omega arith)) h.0.no_newline (h.1.no_newline, (n.no_newline, tt)),
      joined-Lacks b'#' 0 u.username (u.ip ∷ (to_string u.private_port ∷ []))
          (λ e. absurd (omega arith)) h.0.no_nul (h.1.no_nul, (n.no_nul, tt)),
    )

lines-IsToken : (us : List Client) → All IsListed us → All (IsToken b'\n') (map line us)
lines-IsToken [] h = tt
lines-IsToken (u ∷ us) h = (line-IsToken u h.0, lines-IsToken us h.1)

user_line_lem : (u : Client) (rest : Bytes) → user_line u ++ rest ≡ line u ++ (b'\n' ∷ rest)
user_line_lem u rest =
    append_assoc u.username _ rest
    ∙ ap (λ t. u.username ++ (b'#' ∷ t))
        (append_assoc u.ip _ rest
          ∙ ap (λ t. u.ip ++ (b'#' ∷ t)) (append_assoc (to_string u.private_port) _ rest))
    ∙ sym (append_assoc u.username _ _ ∙ ap (λ t. u.username ++ (b'#' ∷ t)) (append_assoc u.ip _ _))

list_info-terminated : (us : List Client) → list_info us ≡ terminated b'\n' (map line us)
unfolding list_info
list_info-terminated [] = refl
list_info-terminated (u ∷ us) =
    user_line_lem u (list_info us) ∙ ap (λ t. line u ++ (b'\n' ∷ t)) (list_info-terminated us)

read_peers-lines :
    (us : List Client) (acc : List (List Bytes))
    → All IsListed us
    → read_peers (length us) (map line us) acc ≡ done (acc ++ map peer us)
unfolding read_peers
read_peers-lines [] acc h = rw append-nil
read_peers-lines (u ∷ us) acc h =
    rw (split-line u h.0)
      (read_peers-lines us (acc ++ peer u ∷ []) h.1 ∙ ap done (append_assoc acc _ _))

-- The lines of the answer.
abbrev parts_of : Client → List Client → List Bytes
parts_of user us = to_string user.balance ∷ (to_string (pos (length us)) ∷ map line us)

parts-IsToken :
    (user : Client) (us : List Client) → All IsListed us → All (IsToken b'\n') (parts_of user us)
parts-IsToken user us h =
    (number-IsToken user.balance, (number-IsToken (pos (length us)), lines-IsToken us h))

response-terminated :
    (user : Client) (us : List Client)
    → info_response user (length us) (list_info us) ≡ terminated b'\n' (parts_of user us)
response-terminated user us = ap (info_response user (length us)) (list_info-terminated us)

-- The answer is a C string.
pub response-Lacks :
    (user : Client) (us : List Client)
    → All IsListed us
    → Lacks 0 (info_response user (length us) (list_info us))
response-Lacks user us h = rw (response-terminated user us) (
    terminated-Lacks b'\n' 0 (parts_of user us) (λ e. absurd (omega arith))
      (nul-free b'\n' (parts_of user us) (parts-IsToken user us h)))

response-split :
    (user : Client) (us : List Client)
    → All IsListed us
    → split (c_str (info_response user (length us) (list_info us))) (codes "\n") ≡ parts_of user us
response-split user us h =
    ap (λ t. split t (codes "\n"))
      (c_str_whole _ (response-Lacks user us h) ∙ response-terminated user us)
    ∙ split-terminated b'\n' (parts_of user us) (λ e. absurd (omega arith))
        (parts-IsToken user us h)

-- The client reads in the server's answer what the server wrote into it: where the balance and the
-- number of users are `int`s, and the users' names and addresses are not empty and hold no `#`, no
-- newline and no NUL, `parse_list_info` gives the balance, the number, and name, address and port of
-- each user in the order of the list.
pub parse_list_info-info_response :
    (user : Client) (us : List Client)
    → InInt user.balance
    → length us ≤ int_max
    → All IsListed us
    → parse_list_info (info_response user (length us) (list_info us))
      ≡ done (record {
        acct_balance = user.balance;
        online_num = pos (length us);
        peer_list = map peer us;
      })
unfolding parse_list_info read_info
parse_list_info-info_response user us i n h =
    ap read_info (response-split user us h)
    ∙ rw (
      read_info,
      stoi-to_string user.balance i,
      with_int,
      stoi-to_string (pos (length us)) (omega arith),
      with_int,
      read_peers-lines us [] h,
    )
