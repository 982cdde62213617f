-- ===== src/Container/Handshake/Container.antt =====
-- src/linyaps_box/container.cpp: the side of the process of a container, from clone_fn on.
use linglong_box.Prelude.{ℕ, Option, List, [], ◌++◌, is_empty, ◌&&◌, append-nil}
use mathlib.Core.Path.{subst}
use linglong_box.Config.{Process, Hook}
use linglong_box.Kernel.{Fd}
use linglong_box.Program.{Program}
use linglong_box.Program.Avoids.{avoids_rules, Avoids-each}
use linglong_box.Program.Sessions.{Act, container_side, runtime_side, Conforms, Silent}
use linglong_box.Program.Sessions.Rules.{
  Silent-then, Silent-Conforms, Conforms-bind, Conforms-unless,
}
use linglong_box.Container.Defs.{Container}
use linglong_box.Container.Hooks.{
  execute_hook, hook_result, wait_create_runtime_result, create_container_hooks,
  start_container_hooks,
}
use linglong_box.Container.Lifecycle.{clone_body}
use linglong_box.Container.Mounter.{Unset}
use linglong_box.Container.Process.{execute_process, do_pivot_root}
use linglong_box.Container.UserNamespace.{request_container_namespaces}
use linglong_box.Container.Handshake.Silent.{silent_calls}
use linglong_box.Container.Ordinary.{IsOrdinary-Silent}
use linglong_box.Container.Ordinary.Mounts.{configure_mounts-IsOrdinary}
use linglong_box.Container.Ordinary.Process.{
  wait_for_tracer-IsOrdinary, close_other_fds-IsOrdinary, set_groups-IsOrdinary,
  unmount_all-IsOrdinary,
}
use linglong_box.Container.Handshake.Messages.{send_message-Conforms, expect_message-Conforms}
use linglong_box.Container.Handshake.Scripts.{
  namespace_acts, create_runtime_acts, create_container_acts, start_container_acts, script,
}

hook_result-Silent : (status : ℕ) → Silent (hook_result status)
unfolding hook_result
hook_result-Silent status = search avoids_rules

pub execute_hook-Silent : (retries : ℕ) (hook : Hook) → Silent (execute_hook retries hook)
unfolding execute_hook
execute_hook-Silent retries hook = search (silent_calls, hook_result-Silent)

execute_process-Silent : (p : Process) → Silent (execute_process p)
unfolding execute_process
execute_process-Silent p =
    search
      (avoids_rules, λ (gids : Option (List ℕ)). IsOrdinary-Silent (set_groups-IsOrdinary gids))
      depth 12

do_pivot_root-Silent : (layers : ℕ) (c : Container) → Silent (do_pivot_root layers c)
unfolding do_pivot_root
do_pivot_root-Silent layers c =
    search (silent_calls, λ (n : ℕ). IsOrdinary-Silent (unmount_all-IsOrdinary n)) depth 24 fits
      4000

module _ (retries : ℕ) (c : Container) (socket : Fd) where
  abbrev Says : List Act → Program Unit → List Act → Type 0
  Says s m t = Conforms container_side runtime_side socket s m t

  request_container_namespaces-Conforms :
      (s : List Act) → Says (namespace_acts ++ s) (request_container_namespaces retries socket) s
  unfolding request_container_namespaces
  request_container_namespaces-Conforms s =
      Conforms-bind (send_message-Conforms _ retries _) λ _. expect_message-Conforms s retries _

  wait_create_runtime_result-Conforms :
      (s : List Act)
      → Says
          (create_runtime_acts c.config.hooks ++ s)
          (wait_create_runtime_result retries c socket)
          s
  unfolding wait_create_runtime_result
  wait_create_runtime_result-Conforms s =
      Conforms-unless (is_empty c.config.hooks.prestart && is_empty c.config.hooks.create_runtime) _
        (Conforms-bind (send_message-Conforms _ retries _) λ _. expect_message-Conforms s retries _)

  create_container_hooks-Conforms :
      (s : List Act)
      → Says (create_container_acts c.config.hooks ++ s) (create_container_hooks retries c socket) s
  unfolding create_container_hooks
  create_container_hooks-Conforms s = Conforms-unless (is_empty c.config.hooks.create_container) _ (
      Silent-then (Avoids-each _ c.config.hooks.create_container (execute_hook-Silent retries))
        λ _. send_message-Conforms s retries _)

  start_container_hooks-Conforms :
      (s : List Act)
      → Says (start_container_acts c.config.hooks ++ s) (start_container_hooks retries c socket) s
  unfolding start_container_hooks
  start_container_hooks-Conforms s = Conforms-unless (is_empty c.config.hooks.start_container) _ (
      Silent-then (Avoids-each _ c.config.hooks.start_container (execute_hook-Silent retries))
        λ _. send_message-Conforms s retries _)

  pub clone_body-Conforms :
      (layers : ℕ) (unset : Unset) (process : Process)
      → Says (script c.config.hooks) (clone_body retries layers unset c process socket) []
  unfolding clone_body
  clone_body-Conforms layers unset process =
      let start =
        subst (λ (l : List Act). Says l (start_container_hooks retries c socket) [])
          (append-nil (start_container_acts c.config.hooks)) (start_container_hooks-Conforms []) in
      Silent-then (IsOrdinary-Silent wait_for_tracer-IsOrdinary) λ _.
        Silent-then (IsOrdinary-Silent (close_other_fds-IsOrdinary _)) λ _.
          Conforms-bind (request_container_namespaces-Conforms _) λ _.
            Silent-then (IsOrdinary-Silent (configure_mounts-IsOrdinary unset c)) λ _.
              Conforms-bind (wait_create_runtime_result-Conforms _) λ _.
                Conforms-bind (create_container_hooks-Conforms _) λ _.
                  Silent-then (do_pivot_root-Silent layers c)
                    λ _. Conforms-bind start λ _. Silent-Conforms (execute_process-Silent process)
