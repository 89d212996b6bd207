-- ===== src/Database/Lifecycle.antt =====
-- The constructor, the destructor and `callback` of `class Database`. What goes to stderr is left out.
use secure_person2person_p2p.Base.{
  ◌≡◌, refl, Bool, true, false, List, [], ◌∷◌, ◌++◌, Option, none, some, if◌then◌else◌, Bytes,
  codes, ℤ, pos, eq_ℤ,
}
use mathlib.Core.Option
use secure_person2person_p2p.Process.{done}
use secure_person2person_p2p.Process.Console.{Console, Io, pure, exit, print, ◌>>=◌, ◌>>◌}
use secure_person2person_p2p.Database.Storage.{Storage}
use secure_person2person_p2p.Database.Operations.{initialise}

abbrev db_name : Bytes
db_name = codes "server.db"

-- One column of a row that `sqlite3_exec` hands over: the name, and the value unless it is NULL.
unfoldable pub callback_text : List (Bytes × Option Bytes) → Bytes
callback_text [] = codes "\n"
callback_text ((name, none) ∷ columns) = name ++ (codes " = NULL" ++ callback_text columns)
callback_text ((name, some value) ∷ columns) =
    name ++ (codes " = " ++ (value ++ callback_text columns))

unfoldable pub callback : List (Bytes × Option Bytes) → Io ℤ
unfolding callback_text
callback columns = print (callback_text columns) >> pure (pos 0)

-- What `filesystem::remove` did: it removed the file, found none, or threw with a text.
pub data Removal : Type 0 where
  removed absent : Removal
  failed : Bytes → Removal

module _ {Table : Type 0} (st : Storage Table) where
  -- `rc` is what `sqlite3_open` returned, and `created` what `CREATE TABLE` did; `t` is the table
  -- that is there then.
  unfoldable pub construct : ℤ → ℤ → Bool → Table → Io Table
  unfolding initialise
  construct rc created reset t =
      if eq_ℤ rc (pos 0)
      then (do
        print (codes "Opened database successfully\n")
        print (if eq_ℤ created (pos 0) then codes "Client table created successfully\n" else [])
        pure (initialise st t reset))
      else exit 0

-- The table that the file holds afterwards; `none` when there is no file.
abbrev pub left_over {ℓ} : {Table : Type ℓ} → Bool → Removal → Table → Option Table
left_over false r t = some t
left_over true removed t = none
left_over true absent t = none
left_over true (failed what) t = some t

unfoldable pub destroy : {Table : Type 0} → Bool → Removal → Table → Io (Option Table)
destroy false r t = pure (left_over false r t)
destroy true removed t =
    print (codes "Database " ++ (db_name ++ codes " deleted successfully.\n"))
    >> pure (left_over true removed t)
destroy true absent t =
    print (codes "Database " ++ (db_name ++ codes " not found.\n"))
    >> pure (left_over true absent t)
destroy true (failed what) t =
    print (codes "Filesystem error: " ++ (what ++ codes "\n"))
    >> pure (left_over true (failed what) t)

-- What happens to the table between two runs of the server: the next run opens what is left.
abbrev pub restart : {Table : Type 0} → Storage Table → Table → Bool → ℤ → Option Table → Io Table
restart st fresh reset created none = construct st (pos 0) created reset fresh
restart st fresh reset created (some t) = construct st (pos 0) created reset t

module _ {Table : Type 0} (st : Storage Table) where
  construct_lem :
      (created : ℤ) (reset : Bool) (t : Table) (c : Console)
      → (construct st (pos 0) created reset t c).0 ≡ done (initialise st t reset)
  unfolding construct ◌>>=◌
  construct_lem created reset t c = refl

  -- A run that follows another opens the table that is left over, or a new one, and removes its rows
  -- if it resets.
  pub restart_lem :
      (fresh t : Table) (erase reset : Bool) (r : Removal) (created : ℤ) (c : Console)
      → ((destroy erase r t >>= restart st fresh reset created) c).0
        ≡ done (initialise st (Option.get_or (left_over erase r t) fresh) reset)
  unfolding destroy ◌>>=◌
  restart_lem fresh t false reset r created c = construct_lem created reset t c
  restart_lem fresh t true reset removed created c = construct_lem created reset fresh _
  restart_lem fresh t true reset absent created c = construct_lem created reset fresh _
  restart_lem fresh t true reset (failed what) created c = construct_lem created reset t _
