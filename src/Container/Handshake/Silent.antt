-- ===== src/Container/Handshake/Silent.antt =====
-- What uses no socket.
use linglong_box.Prelude.{ℕ, String, Bool}
use linglong_box.Program.Avoids.{avoids_rules}
use linglong_box.Program.Sessions.{Silent}
use linglong_box.Utils.Files.{open_file}
use linglong_box.Container.Waiting.{wait_while, wait_container_process}
use linglong_box.Container.Ordinary.{IsOrdinary-Silent}
use linglong_box.Container.Ordinary.Files.{
  wait_while-IsOrdinary, wait_container_process-IsOrdinary, open_file-IsOrdinary,
}

pub wait_while-Silent : (again : ℕ → Bool) (retries pid : ℕ) → Silent (wait_while again retries pid)
wait_while-Silent again retries pid = IsOrdinary-Silent (wait_while-IsOrdinary again retries pid)

pub wait_container_process-Silent : (retries pid : ℕ) → Silent (wait_container_process retries pid)
wait_container_process-Silent retries pid =
    IsOrdinary-Silent (wait_container_process-IsOrdinary retries pid)

pub open_file-Silent : (path : String) (flag : ℕ) → Silent (open_file path flag)
open_file-Silent path flag = IsOrdinary-Silent (open_file-IsOrdinary path flag)

pub ruleset silent_calls =
    (avoids_rules, wait_while-Silent, wait_container_process-Silent, open_file-Silent)
