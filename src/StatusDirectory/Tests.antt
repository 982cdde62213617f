-- ===== src/StatusDirectory/Tests.antt =====
-- Systems that keep files, and examples of the laws about statuses in them.
use mathlib.Core.List.{Perm}
use mathlib.Core.List.Permᴰ
use linglong_box.Prelude.{map, ◌≡◌, refl, ap, String, Option, none, some, List, [], ◌∷◌, ◌++◌}
use linglong_box.Json.{entry}
use linglong_box.Json.Plain.{plain, plain-IsLawful}
use linglong_box.Kernel.{
  Call, Kernel, Outcome, done, failed, list_directory, kill, write_file, rename_file, read_file,
}
use linglong_box.Kernel.AllSucceed.{success}
use linglong_box.Program.{run, ◌>>◌}
use linglong_box.Result.{ok}
use linglong_box.Status.{Status, running}
use linglong_box.StatusDirectory.{write, read, list, alive, status_path}
use linglong_box.StatusDirectory.FileSystem.{regular, files_at, files_at-nil, IsFileSystem}
use linglong_box.StatusDirectory.Listing.{list-updated_by}
use linglong_box.StatusDirectory.Refinement.{read-updated_by}
use linglong_box.StatusDirectory.Store.{put, drop, perform_all}
use linglong_box.StatusDirectory.Updates.{Holds}
use linglong_box.Utils.Paths.Laws.{IsName}
use linglong_box.StatusDirectory.Laws.{IsStoring, stored, write-read}

-- The text that was written last.
abbrev text_after : Call → String → String
text_after (write_file _ text) before = text
text_after _ before = before

abbrev content : List Call → String → String
content [] before = before
content (c ∷ h) before = content h (text_after c before)

abbrev files : Kernel
files h (read_file path) = done (content h "")
files h c = done (success c)

content-written :
    (h : List Call) (from to text before : String)
    → content ((h ++ write_file from text ∷ []) ++ rename_file from to ∷ []) before ≡ text
content-written [] from to text before = refl
content-written (c ∷ h) from to text before = content-written h from to text (text_after c before)

files-IsStoring : IsStoring files
files-IsStoring = record {
  written = λ h path text. refl;
  renamed = λ h from to. refl;
  read_back = λ h from to text. ap (λ (t : String). done t) (content-written h from to text "");
}

abbrev status : Status
status = record {
  id = "box";
  pid = 4;
  status = running;
  bundle = "/bundle";
  created_at = "today";
  owner = 2;
  annotations = ("a", "b") ∷ [];
}

write-read_example :
    (run files [] (write plain "/run/box" status >> read plain "/run/box" "box")).0
    ≡ ok (record status {
      status = alive running (
          files
            (stored plain plain-IsLawful files (status_path "/run/box" "box") status [])
            (kill 4 0));
    })
write-read_example = write-read plain plain-IsLawful files files-IsStoring "/run/box" status []

abbrev found_or_missing : Option String → Outcome String
found_or_missing none = failed 2
found_or_missing (some text) = done text

-- A system that keeps the files of a directory that is empty at the start.
abbrev kept : Kernel
kept h (read_file path) = found_or_missing (entry (files_at [] h) path)
kept h (list_directory dir) = done (map regular (files_at [] h))
kept h c = done (success c)

kept-IsFileSystem : IsFileSystem "/run/box" [] (λ pid. done tt) kept
kept-IsFileSystem = record {
  answers_write = λ h path text. refl;
  answers_rename = λ h from to text e. refl;
  answers_remove = λ h path. refl;
  answers_read = λ h path text e. ap found_or_missing e;
  answers_missing = λ h path e. (2, ap found_or_missing e);
  answers_list = λ h. (files_at [] h, refl, Permᴰ.refl (files_at [] h));
  answers_signal = λ h pid. refl;
}

empty-Holds : Holds plain "/run/box" kept-IsFileSystem [] []
empty-Holds = record { files = files_at-nil []; named = tt }

box-IsName : IsName "box"
box-IsName = record { slashless = (refl, (refl, (refl, tt))); nonempty = refl }

read-updated_by_example :
    (run kept [] (
      perform_all plain "/run/box" (put status ∷ drop "box" ∷ put status ∷ [])
      >> read plain "/run/box" "box")).0
    ≡ ok status
read-updated_by_example =
    read-updated_by plain plain-IsLawful refl "/run/box" kept-IsFileSystem
      (put status ∷ drop "box" ∷ put status ∷ []) "box" empty-Holds
      (box-IsName, (box-IsName, (box-IsName, tt))) box-IsName

list-updated_by_example :
    (ids : List String) × ((run kept []
        (perform_all plain "/run/box" (put status ∷ put status ∷ []) >> list plain "/run/box")).0
      ≡ ok ids)
    × Perm ids ("box" ∷ [])
list-updated_by_example =
    list-updated_by plain plain-IsLawful refl "/run/box" kept-IsFileSystem
      (put status ∷ put status ∷ []) empty-Holds (box-IsName, (box-IsName, tt))
