-- ===== src/StatusDirectory/FileSystem.antt =====
-- The files of one directory, and what a system that keeps them answers: how the calls of
-- src/linyaps_box/impl/status_directory.cpp change the files and read them. A name has one file, and
-- the order of the files is not determined for who lists them.
use mathlib.Core.List.{Permᴰ}
use linglong_box.Prelude.{
  ◌≡◌, refl, ap, ◌∙◌, ℕ, String, Bool, true, Option, none, some, List, [], ◌∷◌, ◌++◌, map,
  append-nil, str_eq, if◌then◌else◌,
}
use linglong_box.Json.{entry}
use linglong_box.Kernel.{
  Call, Kernel, Outcome, write_file, rename_file, remove_file, read_file, list_directory, kill,
  done, failed,
}
use linglong_box.Program.{Program, run}
use linglong_box.Program.Traces.{seen, seen-nil, seen-append, seen-one, Always}

abbrev pub Files : Type 0
Files = List (String × String)

pub data Change : Type 0 where
  written : String → String → Change
  renamed : String → String → Change
  removed : String → Change

abbrev pub file_change : Call → List Change
file_change (write_file path text) = written path text ∷ []
file_change (rename_file from to) = renamed from to ∷ []
file_change (remove_file path) = removed path ∷ []
file_change _ = []

abbrev pub erase {ℓ} : {A : Type ℓ} → String → List (String × A) → List (String × A)
erase key [] = []
erase key ((k, v) ∷ rest) =
    let others = erase key rest in if str_eq k key then others else (k, v) ∷ others

abbrev pub placed : String → Option String → Files → Files
placed path none files = files
placed path (some text) files = (path, text) ∷ erase path files

abbrev pub change : Files → Change → Files
change files (written path text) = (path, text) ∷ erase path files
change files (renamed from to) = placed to (entry files from) (erase from files)
change files (removed path) = erase path files

abbrev pub change_all : Files → List Change → Files
change_all files [] = files
change_all files (c ∷ cs) = change_all (change files c) cs

pub files_at : Files → List Call → Files
files_at start h = change_all start (seen file_change h)

-- A regular file in the directory, as an iterator gives it.
abbrev pub regular : String × String → String × Bool
regular (path, text) = (path, true)

-- The system keeps the files of the directory, from those at the start on. A pass over the
-- directory gives each of them once, in some order. A signal 0 to a process is answered the same
-- whenever it is sent.
pub record IsFileSystem (dir : String) (start : Files) (signal : ℕ → Outcome Unit) (K : Kernel)
    : Type 0 where
  pub answers_write : (h : List Call) (path text : String) → K h (write_file path text) ≡ done tt
  pub answers_rename :
      (h : List Call) (from to text : String)
      → entry (files_at start h) from ≡ some text
      → K h (rename_file from to) ≡ done tt
  pub answers_remove : (h : List Call) (path : String) → K h (remove_file path) ≡ done tt
  pub answers_read :
      (h : List Call) (path text : String)
      → entry (files_at start h) path ≡ some text
      → K h (read_file path) ≡ done text
  pub answers_missing :
      (h : List Call) (path : String)
      → entry (files_at start h) path ≡ none
      → (code : ℕ) × (K h (read_file path) ≡ failed code)
  pub answers_list :
      (h : List Call)
      → (listed : Files) × (K h (list_directory dir) ≡ done (map regular listed))
        × Permᴰ listed (files_at start h)
  pub answers_signal : (h : List Call) (pid : ℕ) → K h (kill pid 0) ≡ signal pid

change_all-append :
    (files : Files) (a b : List Change)
    → change_all files (a ++ b) ≡ change_all (change_all files a) b
change_all-append files [] b = refl
change_all-append files (c ∷ a) b = change_all-append (change files c) a b

pub files_at-nil : (start : Files) → files_at start [] ≡ start
unfolding files_at
files_at-nil start = ap (change_all start) (seen-nil file_change)

pub files_at-call :
    (start : Files) (h : List Call) (c : Call)
    → files_at start (h ++ c ∷ []) ≡ change_all (files_at start h) (file_change c)
unfolding files_at
files_at-call start h c =
    ap (change_all start) (
      seen-append file_change h (c ∷ [])
      ∙ ap (λ (l : List Change). seen file_change h ++ l) (seen-one file_change c))
    ∙ change_all-append start (seen file_change h) (file_change c)

-- What changes no file leaves the files as they are.
pub files_at-Always :
    {A : Type 0} (start : Files) (m : Program A)
    → Always file_change m []
    → (K : Kernel) (h : List Call) → files_at start (run K h m).1 ≡ files_at start h
unfolding files_at
files_at-Always start m quiet K h =
    ap (change_all start) (quiet.at K h ∙ append-nil (seen file_change h))
