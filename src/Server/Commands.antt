-- ===== src/Server/Commands.antt =====
-- `parse_command` of src/server.cpp.
use secure_person2person_p2p.Base.{
  true, false, List, [], ◌∷◌, if◌then◌else◌, Bytes, bytes_eq, codes,
}
use secure_person2person_p2p.Text.Split.{split}
use secure_person2person_p2p.Text.Number.{is_number}

-- REGISTER, LOGIN, LIST, TRANSACTION, EXIT and ERR.
pub data CmdType : Type 0 where
  register login list transaction exit err : CmdType

-- The tests on the number of arguments and their values, in the order of the source.
unfoldable pub classify : List Bytes → CmdType
classify [] = err
classify (name ∷ []) =
    if bytes_eq name (codes "Exit")
    then exit
    else if bytes_eq name (codes "List")
    then list
    else err
classify (name ∷ (arg ∷ [])) =
    if bytes_eq name (codes "REGISTER")
    then register
    else if is_number arg false
    then login
    else err
classify (name ∷ (arg ∷ (last ∷ []))) = if is_number arg true then transaction else err
classify (name ∷ (arg ∷ (last ∷ (more ∷ rest)))) = err

unfoldable pub parse_command : Bytes → CmdType × List Bytes
unfolding classify
parse_command cmd = let args = split cmd (codes "#") in (classify args, args)

-- `args[i]`; `classify` has checked that the element is there.
abbrev pub first : List Bytes → Bytes
first [] = []
first (a ∷ _) = a

abbrev pub second : List Bytes → Bytes
second [] = []
second (_ ∷ args) = first args

abbrev pub third : List Bytes → Bytes
third [] = []
third (_ ∷ args) = second args
