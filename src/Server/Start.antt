-- ===== src/Server/Start.antt =====
-- The start of the server: `assign_port`, `check_db_status`, and `main` up to its loop.
pub mod Limits
pub mod Opening
pub mod Questions
use secure_person2person_p2p.Base.{
  ℕ, zero, suc, ◌-◌, ◌%◌, ◌^◌, Bool, true, false, ◌||◌, not, List, [], ◌∷◌, ◌++◌, Option, none,
  some, ◌==◌, leb, if◌then◌else◌, Bytes, bytes_eq, codes, ℤ, pos, negsuc, eq_ℤ, int_max,
}
use secure_person2person_p2p.Text.Number.{
  Except, ok, throw, invalid_argument, out_of_range, not_found, stoi, to_string,
}
use secure_person2person_p2p.Process.Console.{
  Io, pure, exit, print, or_throw, or_undefined, ◌>>=◌, ◌>>◌,
}
use secure_person2person_p2p.Process.Ports.{Probe, find_port, htons}
use secure_person2person_p2p.Process.Questions.{ask}
use secure_person2person_p2p.Database.Storage.{Storage}
use secure_person2person_p2p.Database.Lifecycle.{construct}

abbrev requesting : Bytes → ℤ → Bytes
requesting name p =
    codes "Requesting "
    ++ ((if bytes_eq name [] then [] else name ++ codes " on ")
        ++ (codes "port # " ++ (to_string p ++ codes "...\n")))

-- `target_port` is what the variable held before; `none` if nothing was assigned to it.
unfoldable pub assign_port : Bytes → Option ℤ → Bytes → Probe → Io (Option ℤ)
unfolding find_port
assign_port assigned_str target_port name probe = do
  n ← or_throw (stoi assigned_str)
  if eq_ℤ n (pos 0) then find_port (requesting name) target_port probe else pure (some n)

-- `atoi` gives 0 where there is no number, and is undefined beyond an `int`.
abbrev pub int_or_zero : Except ℤ → Option ℤ
int_or_zero (ok n) = some n
int_or_zero (throw out_of_range) = none
int_or_zero (throw invalid_argument) = some (pos 0)
int_or_zero (throw not_found) = some (pos 0)

unfoldable pub atoi : Bytes → Option ℤ
unfolding stoi
atoi s = int_or_zero (stoi s)

-- The conversions between `int` and `unsigned`.
unfoldable pub to_unsigned : ℤ → ℕ
to_unsigned (pos n) = n % 2 ^ 32
to_unsigned (negsuc n) = 2 ^ 32 - 1 - n % 2 ^ 32

unfoldable pub to_int : ℕ → ℤ
to_int u = if leb u int_max then pos u else negsuc (2 ^ 32 - 1 - u)

-- A limit that was asked for, compared as `unsigned` with the number of threads.
unfoldable pub limit_of : ℕ → ℤ → ℤ
unfolding to_unsigned to_int
limit_of num_of_threads n =
    if leb (to_unsigned n) num_of_threads then to_int (to_unsigned n) else to_int num_of_threads

-- At least one thread, whatever `hardware_concurrency` returned.
abbrev pub at_least_one : ℕ → ℕ
at_least_one zero = 1
at_least_one (suc n) = suc n

abbrev pub is_silent : Bytes → Bool
is_silent arg = bytes_eq arg (codes "-s") || bytes_eq arg (codes "--silent")

abbrev pub man : Bytes
man =
    codes "Usage: ./server <port_number> <thread_limit> [-s]\n"
    ++ (codes "port_number should be an integer between 1024 and 65535.\n"
        ++ (codes "thread_limit determines the number of users that can connect.\n"
            ++ codes "If [-s] or [--silent] is specified, silent mode will be enabled.\n"))

pub record Config : Type 0 where
  pub server_port : Option ℤ
  pub limit : ℤ
  pub verbose : Bool

abbrev pub by_default : ℕ → Option ℤ → Bool → Io Config
by_default num_of_threads port verbose =
    print (
      codes "User limit is now set to default: "
      ++ (to_string (to_int num_of_threads) ++ codes "\n"))
    >> pure (record { server_port = port; limit = to_int num_of_threads; verbose = verbose })

abbrev pub by_choice : ℕ → Option ℤ → Bool → Bytes → Io Config
by_choice num_of_threads port verbose arg = do
  n ← or_undefined (atoi arg)
  print (codes "User limit is now set to " ++ (to_string (limit_of num_of_threads n) ++ codes "\n"))
  pure (record { server_port = port; limit = limit_of num_of_threads n; verbose = verbose })

abbrev pub default_config : ℕ → Probe → Io Config
default_config num_of_threads probe = do
  print (man ++ codes "\n")
  print (codes "Probing for an available port...\n")
  port ← assign_port (codes "0") none [] probe
  by_default num_of_threads port true

-- The `switch` on the arguments behind the program's name.
unfoldable pub configure : ℕ → Probe → List Bytes → Io Config
unfolding assign_port
configure num_of_threads probe [] = default_config num_of_threads probe
configure num_of_threads probe (assigned ∷ []) = do
  port ← assign_port assigned none [] probe
  by_default num_of_threads port true
configure num_of_threads probe (assigned ∷ (second ∷ [])) = do
  port ← assign_port assigned none [] probe
  if is_silent second
      then by_default num_of_threads port false
      else by_choice num_of_threads port true second
configure num_of_threads probe (assigned ∷ (second ∷ (third ∷ []))) =
    if is_silent third
    then (do port ← assign_port assigned none [] probe; by_choice num_of_threads port false second)
    else print (man ++ codes "\n")
      >> pure (record { server_port = none; limit = to_int num_of_threads; verbose = true })
configure num_of_threads probe (assigned ∷ (second ∷ (third ∷ (fourth ∷ rest)))) =
    default_config num_of_threads probe

-- Whether a letter says yes.
unfoldable pub yes_or_no : ℕ → Option Bool
yes_or_no c =
    if c == b'Y' || c == b'y'
    then some true
    else if c == b'n' || c == b'N'
    then some false
    else none

abbrev pub alive_question : Bytes
alive_question = codes "Keep database alive after server termination? [Y/n] "

abbrev pub reset_question : Bytes
reset_question = codes "Reset database during initialization? [Y/n] "

unfoldable pub check_db_status : Io (Bool × Bool)
unfolding yes_or_no
check_db_status = do
  alive ← ask yes_or_no alive_question
  reset ← ask yes_or_no reset_question
  pure (not alive, reset)

-- What the kernel answers to `main`: `socket`, `bind` to a port, and `listen`.
pub record Kernel : Type 0 where
  pub socket_ok : Bool
  pub binds : ℕ → Bool
  pub listen_ok : Bool

-- The server as it comes to its loop.
pub record Ready (Table : Type 0) : Type 0 where
  pub config : Config
  pub port : ℕ
  pub erase : Bool
  pub table : Table

module _ {Table : Type 0} (st : Storage Table) where
  -- From the announcement of the port to the loop. `rc` and `created` are what sqlite answers, and
  -- `t` is the table of the file.
  unfoldable pub begin : Kernel → Config → Bool → Bool → ℤ → ℤ → Table → Io (Ready Table)
  unfolding construct
  begin kernel config erase reset rc created t = do
    server_port ← or_undefined config.server_port
    print (codes "Server listening on port " ++ (to_string server_port ++ codes "\n"))
    if kernel.binds (htons server_port)
        then (if kernel.listen_ok
            then (do
              table ← construct st rc created reset t
              print (if config.verbose then [] else codes "Silent mode is on.\n")
              pure (record {
                config = config;
                port = htons server_port;
                erase = erase;
                table = table;
              }))
            else exit 1)
        else exit 1

  unfoldable pub main : ℕ → Probe → Kernel → List Bytes → ℤ → ℤ → Table → Io (Ready Table)
  unfolding configure check_db_status begin
  main concurrency probe kernel args rc created t =
      if kernel.socket_ok
      then (do
        config ← configure (at_least_one concurrency) probe args
        (erase, reset) ← check_db_status
        begin kernel config erase reset rc created t)
      else exit 1
