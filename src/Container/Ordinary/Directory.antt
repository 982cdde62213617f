-- ===== src/Container/Ordinary/Directory.antt =====
-- src/linyaps_box/impl/status_directory.cpp: the directory of statuses in files is ordinary.
use linglong_box.Prelude.{String, Option, none, some}
use linglong_box.Json.{Json, or_throw}
use linglong_box.Program.{of_result}
use linglong_box.Program.Avoids.{avoids_rules}
use linglong_box.Status.{Status}
use linglong_box.StatusDirectory.{read_status, write, read, remove}
use linglong_box.Container.Ordinary.{IsOrdinary}
use linglong_box.Container.Ordinary.Files.{ordinary_calls}

or_throw-IsOrdinary : {A : Type 0} (o : Option A) → IsOrdinary (of_result (or_throw o))
or_throw-IsOrdinary none = search avoids_rules
or_throw-IsOrdinary (some a) = search avoids_rules

module _ (J : Json) (dir : String) where
  pub write-IsOrdinary : (s : Status) → IsOrdinary (write J dir s)
  unfolding write
  write-IsOrdinary s = search ordinary_calls

  pub remove-IsOrdinary : (id : String) → IsOrdinary (remove J dir id)
  unfolding remove
  remove-IsOrdinary id = search ordinary_calls

  read_status-IsOrdinary : (path : String) → IsOrdinary (read_status J path)
  unfolding read_status
  read_status-IsOrdinary path = search (ordinary_calls, or_throw-IsOrdinary) depth 24 fits 4000

  pub read-IsOrdinary : (id : String) → IsOrdinary (read J dir id)
  unfolding read
  read-IsOrdinary id = read_status-IsOrdinary _
