-- ===== src/StatusDirectory.antt =====
-- src/linyaps_box/impl/status_directory.cpp: statuses in files of JSON.
pub mod Laws
mod FileSystem
mod Paths
mod Store
mod Updates
mod Refinement
mod Listing
mod Tests
use Prim.Native.Char.{code}
use linglong_box.Prelude.{
  ◌==◌, ℕ, String, ◌<>◌, Bool, true, false, List, [], ◌∷◌, ◌++◌, zero, suc, not, ◌&&◌, str_eq,
  if◌then◌else◌,
}
use linglong_box.Json.{Json, or_throw}
use linglong_box.Kernel.{
  read_file, remove_file, list_directory, is_directory, create_directories, kill, Outcome, done,
  failed,
}
use linglong_box.Program.{Program, ret, throw, call, sys, of_result, ◌>>=◌, ◌>>◌, catch}
use linglong_box.Result.{runtime_error}
use linglong_box.Status.{
  RuntimeStatus, creating, created, running, stopped, unknown, Status, StatusDirectory,
}
use linglong_box.Utils.Files.{atomic_write}
use linglong_box.Utils.Paths.{append, filename}

-- An enumeration as the number that the JSON library makes of it.
abbrev pub status_number : RuntimeStatus → ℕ
status_number creating = 0
status_number created = 1
status_number running = 2
status_number stopped = 3
status_number (unknown n) = suc (suc (suc (suc n)))

-- The conversion back, which keeps a number that no enumerator has.
abbrev pub status_of_number : ℕ → RuntimeStatus
status_of_number zero = creating
status_of_number (suc zero) = created
status_of_number (suc (suc zero)) = running
status_of_number (suc (suc (suc zero))) = stopped
status_of_number (suc (suc (suc (suc n)))) = unknown n

pub status_path : String → String → String
status_path dir id = append dir (id <> ".json")

-- `path().extension()`: the text from the last dot of the file name on, unless it is the first byte.
last_dot : String → String
last_dot String.[] = ""
last_dot (String.◌∷◌ c s) =
    let later = last_dot s in
    if str_eq later "" then (if code c == b'.' then String.◌∷◌ c s else "") else later

extension_of_name : String → String
extension_of_name String.[] = ""
extension_of_name (String.◌∷◌ c s) = last_dot s

pub extension : String → String
extension path = extension_of_name (filename path)

abbrev pub text_read : Outcome String → String
text_read (done text) = text
text_read (failed e) = ""

abbrev pub alive : RuntimeStatus → Outcome Unit → RuntimeStatus
alive status (done _) = status
alive status (failed e) = stopped

abbrev pub directory_ready : Bool → Program Unit
directory_ready true = ret tt
directory_ready false = throw (runtime_error "failed to create status directory")

module _ (J : Json) where
  abbrev number_member : J.Value → String → Program ℕ
  number_member j key =
      of_result (or_throw (J.member j key)) >>= λ v. of_result (or_throw (J.get_number v))

  abbrev text_member : J.Value → String → Program String
  text_member j key =
      of_result (or_throw (J.member j key)) >>= λ v. of_result (or_throw (J.get_string v))

  -- `read_status`. Whatever the reason for which `kill(pid, 0)` fails, the status is STOPPED.
  unfoldable pub read_status : String → Program Status
  read_status path = do
    r ← call (read_file path) ret
    j ← of_result (or_throw (J.parse (text_read r)))
    pid ← number_member j "pid"
    id ← text_member j "id"
    number ← number_member j "status"
    signalled ← call (kill pid 0) ret
    bundle ← text_member j "bundle"
    created_at ← text_member j "created"
    owner ← number_member j "owner"
    annotations_value ← of_result (or_throw (J.member j "annotations"))
    annotations ← of_result (or_throw (J.get_map annotations_value))
    ret (record {
      id = id;
      pid = pid;
      status = alive (status_of_number number) signalled;
      bundle = bundle;
      created_at = created_at;
      owner = owner;
      annotations = annotations;
    })

  unfoldable pub status_json : Status → J.Value
  status_json s = J.object (
      ("id", J.of_string s.id)
      ∷ ("pid", J.of_number s.pid)
      ∷ ("status", J.of_number (status_number s.status))
      ∷ ("bundle", J.of_string s.bundle)
      ∷ ("created", J.of_string s.created_at)
      ∷ ("owner", J.of_number s.owner)
      ∷ ("annotations", J.of_map s.annotations)
      ∷ [])

  module _ (dir : String) where
    unfoldable pub write : Status → Program Unit
    write s = atomic_write (status_path dir s.id) (J.dump (status_json s))

    unfoldable pub read : String → Program Status
    read id = read_status (status_path dir id)

    unfoldable pub remove : String → Program Unit
    remove id = sys (remove_file (status_path dir id)) "remove"

    -- The id in one entry of the directory.
    pub read_entry : String × Bool → Program String
    read_entry e =
        if e.1 && not (str_eq (extension e.0) ".json")
        then throw (runtime_error "invalid extension")
        else (read_status e.0 >>= λ s. ret s.id)

    -- An entry that throws is skipped, with a warning.
    pub list_entries : List (String × Bool) → Program (List String)
    list_entries [] = ret []
    list_entries (e ∷ entries) = do
      found ← catch (read_entry e >>= λ id. ret (id ∷ [])) (λ _. ret [])
      ids ← list_entries entries
      ret (found ++ ids)

    pub list : Program (List String)
    list = do entries ← sys (list_directory dir) "directory_iterator"; list_entries entries

    -- The constructor of the class.
    unfoldable pub open_directory : Program StatusDirectory
    open_directory = do
      there ← sys (is_directory dir) "is_directory"
      made ← (if there then ret true else sys (create_directories dir) "create_directories")
      directory_ready made
      ret (record { write = write; read = read; remove = remove; list = list })
