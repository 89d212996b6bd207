-- ===== src/Util/Keys.antt =====
-- The making, the removal and the reading of keys in include/util.hpp: `random_string`,
-- `create_key_and_certificate`, `delete_key_and_certificate` and `readKey`. The random numbers and the
-- contents of files are inputs; what `system` is given is recorded.
pub mod Files
pub mod Letters
pub mod Names
use secure_person2person_p2p.Base.{
  ℕ, zero, suc, List, [], ◌∷◌, ◌++◌, Option, none, some, ltb, ◌==◌, if◌then◌else◌, length, Bytes,
  codes, c_str,
}
use secure_person2person_p2p.Process.{Result, done, undefined}
use secure_person2person_p2p.Process.Console.{Io, pure, print, system, or_undefined, ◌>>=◌, ◌>>◌}

-- The characters of the identifier.
unfoldable pub chrs : Bytes
chrs = codes "0123456789abcdefghijklmnopqrstuvwxyzABCDEFGHIJKLMNOPQRSTUVWXYZ"

-- `chrs[i]`; the array ends with a NUL, and an index behind it is undefined.
abbrev pub index : Bytes → ℕ → Option ℕ
index [] zero = some 0
index [] (suc i) = none
index (c ∷ s) zero = some c
index (c ∷ s) (suc i) = index s i

-- `draw` gives the numbers that `pick` draws, and `s` is the text so far.
unfoldable pub random_loop : ℕ → (ℕ → ℕ) → ℕ → Bytes → Io Bytes
unfolding chrs
random_loop zero draw k s = pure s
random_loop (suc length) draw k s =
    or_undefined (index chrs (draw k)) >>= λ c. random_loop length draw (suc k) (s ++ c ∷ [])

unfoldable pub random_string : ℕ → (ℕ → ℕ) → Io Bytes
unfolding random_loop
random_string length draw = random_loop length draw 0 []

-- `%s/%s_%s` and an ending.
abbrev pub file_name : Bytes → Bytes → Bytes → Bytes → Bytes
file_name cert_path uid pem_name ending =
    cert_path ++ (codes "/" ++ (uid ++ (codes "_" ++ (pem_name ++ ending))))

-- The command that makes the private key and the certificate.
abbrev pub make_command : Bytes → Bytes → Bytes → Bytes
make_command cert_path uid pem_name =
    codes "openssl req -x509 -sha256 -nodes -days 365 -newkey rsa:2048 -keyout "
    ++ (file_name cert_path uid pem_name (codes ".key")
        ++ (codes " -out "
            ++ (file_name cert_path uid pem_name (codes ".crt")
                ++ (codes " -subj \"/C=TW/ST=Taiwan/L=TPE/O=NTU/OU=IM/CN=localhost/emailAddress="
                    ++ (uid ++ (codes "_" ++ (pem_name ++ codes "@icheft\"")))))))

-- The command that takes the public key from the certificate.
abbrev pub extract_command : Bytes → Bytes → Bytes → Bytes
extract_command cert_path uid pem_name =
    codes "openssl x509 -pubkey -noout -in "
    ++ (file_name cert_path uid pem_name (codes ".crt")
        ++ (codes " > " ++ file_name cert_path uid pem_name (codes ".pem")))

-- The size of the buffer that `sprintf` writes a command into; a longer one is undefined.
abbrev pub command_size : ℕ
command_size = 1024

abbrev pub run_command : Bytes → Io (Unit {0})
run_command syscmd = if ltb (length syscmd) command_size then system syscmd else or_undefined none

unfoldable pub create_key_and_certificate : (ℕ → ℕ) → Bytes → Bytes → Bytes → Io Bytes
unfolding random_string
create_key_and_certificate draw cert_path target pem_name = do
  uid ← random_string 5 draw
  print (codes "Creating dynamic Key and Certificate with target ID [" ++ (uid ++ codes "]...\n"))
  run_command (make_command cert_path uid pem_name)
  run_command (extract_command cert_path uid pem_name)
  print (codes "Done.\n")
  pure uid

abbrev pub remove_command : Bytes → Bytes → Bytes → Bytes → Bytes
remove_command cert_path uid pem_name ending =
    codes "rm " ++ file_name cert_path uid pem_name ending

unfoldable pub delete_key_and_certificate : Bytes → Bytes → Bytes → Bytes → Io (Unit {0})
delete_key_and_certificate uid cert_path target pem_name = do
  print (codes "Deleting dynamic Key and Certificate with target ID [" ++ (uid ++ codes "]...\n"))
  run_command (remove_command cert_path uid pem_name (codes ".key"))
  run_command (remove_command cert_path uid pem_name (codes ".crt"))
  run_command (remove_command cert_path uid pem_name (codes ".pem"))
  print (codes "Done.\n")

-- The lines that `getline` reads, `line` being the part of the current one: a newline ends each, and
-- what follows the last one is a line if it is not empty.
unfoldable pub lines : Bytes → Bytes → List Bytes
lines [] [] = []
lines [] (b ∷ line) = (b ∷ line) ∷ []
lines (c ∷ s) line = if c == b'\n' then line ∷ lines s [] else lines s (line ++ c ∷ [])

abbrev pub key_size : ℕ
key_size = 4096

-- The loop, with `strcat` on a buffer of 4096 bytes.
unfoldable pub read_lines : List Bytes → Bytes → Result Bytes
read_lines [] key = done key
read_lines (line ∷ rest) key =
    let longer = key ++ c_str (line ++ b'\n' ∷ []) in
    let more = read_lines rest longer in if ltb (length longer) key_size then more else undefined

-- `none` stands for a file that cannot be opened.
unfoldable pub read_key : Option Bytes → Result Bytes
unfolding read_lines lines
read_key none = done []
read_key (some content) = read_lines (lines content []) []
