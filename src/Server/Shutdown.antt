-- ===== src/Server/Shutdown.antt =====
-- The signal handlers of the server. `exit(1)` follows a SIGINT.
use mathlib.Core.Option
use secure_person2person_p2p.Base.{
  ◌≡◌, refl, ap, ◌∙◌, Bool, true, false, List, [], ◌∷◌, ◌++◌, map, Option, none, some, Bytes, codes,
  ℤ, pos, eq_ℤ, ◌||◌,
}
use secure_person2person_p2p.Text.Number.{to_string}
use secure_person2person_p2p.Process.{Result, done}
use secure_person2person_p2p.Process.Console.{Console, Io, print, or_undefined, ◌>>=◌, ◌>>◌}
use secure_person2person_p2p.Database.Storage.{Storage, IsStorage}
use secure_person2person_p2p.Database.Operations.{initialise}
use secure_person2person_p2p.Database.Lifecycle.{
  Removal, removed, absent, failed, left_over, destroy, restart, restart_lem,
}
use secure_person2person_p2p.Server.State.{World, Event, closes}
use secure_person2person_p2p.Server.System.{Thread, stopped}

abbrev caught : ℤ → Bytes
caught s = codes "Caught signal " ++ (to_string s ++ codes "\n")

-- The loop over `client_fds`; `none` stands for a pointer that dangles.
unfoldable pub close_clients : List (Bytes × Option ℤ) → Option (List Event)
close_clients [] = some []
close_clients ((name, none) ∷ fds) = none
close_clients ((name, some fd) ∷ fds) = elim (close_clients fds) [
  | none ↦ none
  | some closed ↦ some (closes fd ∷ closed)
]

-- The listening socket and the connections of all users who have logged in are closed. `shutdown` of a
-- descriptor that is closed does nothing.
abbrev pub interrupted : {Table : Type 0} → ℤ → List Event → World Table → World Table
interrupted socket_fd closed w = record w {
  termination_flag = true;
  events = w.events ++ closes socket_fd ∷ closed;
}

-- Then the database is deleted, that is, kept or erased.
unfoldable pub sigint_handler :
    {Table : Type 0} → ℤ → ℤ → Bool → Removal → World Table → World Table × Io (Option Table)
unfolding close_clients
sigint_handler s socket_fd erase r w = elim (close_clients w.client_fds) [
  | none ↦ (w, print (caught s) >> or_undefined none)
  | some closed ↦ (interrupted socket_fd closed w, print (caught s) >> destroy erase r w.db)
]

unfoldable pub sigpipe_handler : ℤ → Io (Unit {0})
sigpipe_handler unused =
    print (caught unused)
    >> print (
        codes
          "Something is written to a pipe where nothing is read from anymore. A user may just be gone.\n")

-- The entries of threads that run, by name and connection.
abbrev pub running_entries : List (Bytes × ℤ) → List (Bytes × Option ℤ)
running_entries = map (λ entry. (entry.0, some entry.1))

close_clients_running :
    (entries : List (Bytes × ℤ))
    → close_clients (running_entries entries) ≡ some (map (λ entry. closes entry.1) entries)
unfolding close_clients
close_clients_running [] = refl
close_clients_running (entry ∷ entries) = rw (close_clients_running entries)

module _ {Table : Type 0} {st : Storage Table} (law : IsStorage st) where
  -- The table with which the next run begins, after a SIGINT.
  abbrev pub next_run :
      ℤ → ℤ → World Table → Table → ℤ → Console → Bool → Removal → Bool → Result Table
  next_run s socket_fd w fresh created c erase r reset =
      (((sigint_handler s socket_fd erase r w).1 >>= restart st fresh reset created) c).0

  handled :
      (s socket_fd : ℤ) (erase : Bool) (r : Removal) (w : World Table) (entries : List (Bytes × ℤ))
      → w.client_fds ≡ running_entries entries
      → sigint_handler s socket_fd erase r w ≡ (
        interrupted socket_fd (map (λ entry. closes entry.1) entries) w,
        print (caught s) >> destroy erase r w.db,
      )
  unfolding sigint_handler
  handled s socket_fd erase r w entries e =
      rw (ap close_clients e ∙ close_clients_running entries, sigint_handler)

  next_run_lem :
      (s socket_fd : ℤ) (w : World Table) (entries : List (Bytes × ℤ)) (fresh : Table) (created : ℤ)
      (c : Console) (erase : Bool) (r : Removal) (reset : Bool) (t : Table)
      → w.client_fds ≡ running_entries entries
      → (((destroy erase r w.db) >>= restart st fresh reset created)
          (record c { output = c.output ++ caught s })).0
        ≡ done t
      → next_run s socket_fd w fresh created c erase r reset ≡ done t
  unfolding ◌>>=◌
  next_run_lem s socket_fd w entries fresh created c erase r reset t e h =
      ap (λ (x : World Table × Io (Option Table)). ((x.1 >>= restart st fresh reset created) c).0)
        (handled s socket_fd erase r w entries e)
      ∙ h

  -- Where every entry of `client_fds` is of a thread that runs: after a SIGINT every thread finds the
  -- test of its loop false, and the listening socket and the connections of the entries have been
  -- closed. The next run of the server, if sqlite opens the file for it and it does not reset, begins
  -- with exactly the table of this one if the database was to be kept, whatever a removal would have
  -- done, or if the removal failed, and with the new table if the file was removed or was not there;
  -- and if it resets, with no row, whatever was found.
  pub sigint_handler-restart :
      (s socket_fd : ℤ) (erase : Bool) (r : Removal) (w : World Table) (entries : List (Bytes × ℤ))
      (fresh : Table) (created : ℤ) (c : Console)
      → w.client_fds ≡ running_entries entries
      → let after = (sigint_handler s socket_fd erase r w).0 in
        let run = next_run s socket_fd w fresh created c in
        ((t : Thread) → stopped t after ≡ true)
        × (after.events ≡ w.events ++ closes socket_fd ∷ map (λ entry. closes entry.1) entries)
        × (run false r false ≡ done w.db)
        × ((what : Bytes) → run true (failed what) false ≡ done w.db)
        × (run true removed false ≡ done fresh)
        × (run true absent false ≡ done fresh)
        × ((t : Table) × (run erase r true ≡ done t) × (law.rows t ≡ []))
  unfolding initialise
  sigint_handler-restart s socket_fd erase r w entries fresh created c e =
      let went =
        ap (λ (x : World Table × Io (Option Table)). x.0)
          (handled s socket_fd erase r w entries e) in
      let run : (erase : Bool) (r : Removal) (reset : Bool)
          → next_run s socket_fd w fresh created c erase r reset
            ≡ done (initialise st (Option.get_or (left_over erase r w.db) fresh) reset) =
        λ erase r reset. next_run_lem s socket_fd w entries fresh created c erase r reset _ e (
          restart_lem st fresh w.db erase reset r created
            (record c { output = c.output ++ caught s })) in
      (
        λ t. ap (λ (v : World Table). stopped t v) went ∙ or_true (eq_ℤ t.peer.connection (pos 0)),
        ap (λ (v : World Table). v.events) went,
        run false r false,
        λ what. run true (failed what) false,
        run true removed false,
        run true absent false,
        (
          initialise st (Option.get_or (left_over erase r w.db) fresh) true,
          run erase r true,
          law.remove_all_rows _ (law.synced (Option.get_or (left_over erase r w.db) fresh)),
        ),
      )
    where
      or_true : (b : Bool) → (b || true) ≡ true
      or_true true = refl
      or_true Bool.false = refl
