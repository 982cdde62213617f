-- ===== src/Container/Order/Child.antt =====
-- The events of the process that becomes a container.
use mathlib.Core.List.{map}
use linglong_box.Prelude.{refl, sym, ℕ, String, Option, none, some, List, [], ◌∷◌, ◌++◌, append-nil}
use linglong_box.Config.{Hooks, Process}
use linglong_box.Kernel.{
  Fd, Kernel, Outcome, done, failed, execute, pivot_root, chdir, fchdir, setgid, setuid, mount_at,
  proc_path,
}
use linglong_box.Program.{sys, run, replaced_or}
use linglong_box.Program.Traces.{seen, Always-call}
use linglong_box.Program.Traces.Binds.{Always-bind, Always-sys, quiet-sys}
use linglong_box.Program.Traces.Quiet.{quiet_rules}
use linglong_box.Program.Traces.Follows.{
  Begins, Within, Follows-Always, Follows-bind, Follows-after, Within-catch, Within-begins,
}
use linglong_box.Container.Defs.{Container}
use linglong_box.Container.Process.{execute_process, do_pivot_root, process_args, process_env}
use linglong_box.Container.UserNamespace.{request_container_namespaces}
use linglong_box.Container.Mounter.{Unset}
use linglong_box.Container.Lifecycle.{clone_body, clone_fn}
use linglong_box.Container.Order.{Event, event_of, hook_event, process_event, root_pivoted}
use linglong_box.Container.Order.Quiet.{IsQuiet, quiet_calls}
use linglong_box.Container.Ordinary.{IsOrdinary-Always}
use linglong_box.Container.Ordinary.Files.{open_file-IsOrdinary}
use linglong_box.Container.Ordinary.Mounts.{configure_mounts-IsOrdinary}
use linglong_box.Container.Ordinary.Process.{
  wait_for_tracer-IsOrdinary, close_other_fds-IsOrdinary, set_groups-IsOrdinary,
  unmount_all-IsOrdinary,
}
use linglong_box.Container.Order.Hooks.{
  Shown, wait_create_runtime_result-IsQuiet, create_container_hooks-Shown,
  start_container_hooks-Shown,
}

request_container_namespaces-IsQuiet :
    (retries : ℕ) (socket : Fd) → IsQuiet (request_container_namespaces retries socket)
unfolding request_container_namespaces
request_container_namespaces-IsQuiet retries socket = search quiet_calls

replaced_or-IsQuiet :
    {A : Type 0} (what : String) (r : Outcome Unit) → IsQuiet (replaced_or {A = A} what r)
replaced_or-IsQuiet what (done _) = record { at = λ K h. sym (append-nil _) }
replaced_or-IsQuiet what (failed e) = search quiet_rules

execute_process-Shown : (p : Process) → Shown (execute_process p) (process_event p ∷ [])
unfolding execute_process
execute_process-Shown p =
    Follows-after event_of (quiet-sys event_of (chdir p.cwd) "chdir" refl) λ _.
      Follows-after event_of (quiet-sys event_of (setgid p.uid) "setgid" refl) λ _.
        Follows-after event_of (IsOrdinary-Always (set_groups-IsOrdinary p.additional_gids)) λ _.
          Follows-after event_of (quiet-sys event_of (setuid p.uid) "setuid" refl) λ _.
            Follows-Always event_of (
              Always-call event_of {c = execute (process_args p) (some (process_env p))}
                (replaced_or-IsQuiet "execvpe"))

system_call-IsQuiet :
    (source : Option String) (target : String) (type : Option String) (flags : ℕ)
    (text : Option String)
    → IsQuiet (sys (mount_at source target type flags text) "mount")
system_call-IsQuiet source target type flags text = search quiet_rules

do_pivot_root-Shown :
    (layers : ℕ) (c : Container) → Shown (do_pivot_root layers c) (root_pivoted ∷ [])
unfolding do_pivot_root
do_pivot_root-Shown layers c =
    Follows-after event_of (IsOrdinary-Always (open_file-IsOrdinary _ _)) λ old_root.
      Follows-after event_of (IsOrdinary-Always (open_file-IsOrdinary _ _)) λ bind_fd.
        Follows-after event_of (system_call-IsQuiet none "/" none _ none) λ _.
          Follows-after event_of
            (system_call-IsQuiet (some (proc_path bind_fd)) (proc_path bind_fd) none _ none)
            λ _. Follows-after event_of (IsOrdinary-Always (open_file-IsOrdinary _ _)) λ new_root.
              Follows-after event_of (quiet-sys event_of (fchdir new_root) "fchdir" refl) λ _.
                Follows-Always event_of (
                  Always-bind event_of (Always-sys event_of (pivot_root "." ".") "pivot_root") λ _.
                    search (quiet_rules, λ (n : ℕ). IsOrdinary-Always (unmount_all-IsOrdinary n)))

-- What the process of a container executes, and where it changes the root.
pub container_events : Hooks → Process → List Event
container_events hooks p =
    map hook_event hooks.create_container
    ++ (root_pivoted ∷ [] ++ (map hook_event hooks.start_container ++ process_event p ∷ []))

module _ (retries layers : ℕ) (unset : Unset) (c : Container) (p : Process) (socket : Fd) where
  clone_body-Shown :
      Shown (clone_body retries layers unset c p socket) (container_events c.config.hooks p)
  unfolding clone_body container_events
  clone_body-Shown = Follows-after event_of (IsOrdinary-Always wait_for_tracer-IsOrdinary) λ _.
      Follows-after event_of (IsOrdinary-Always (close_other_fds-IsOrdinary _)) λ _.
        Follows-after event_of (request_container_namespaces-IsQuiet retries socket) λ _.
          Follows-after event_of (IsOrdinary-Always (configure_mounts-IsOrdinary unset c)) λ _.
            Follows-after event_of (wait_create_runtime_result-IsQuiet retries c socket) λ _.
              Follows-bind event_of (create_container_hooks-Shown retries c socket) λ _.
                Follows-bind event_of (do_pivot_root-Shown layers c) λ _.
                  Follows-bind event_of (start_container_hooks-Shown retries c socket)
                    λ _. execute_process-Shown p

  clone_fn-Within :
      Within event_of (clone_fn retries layers unset c p socket) (container_events c.config.hooks p)
  unfolding clone_fn
  clone_fn-Within = Within-catch event_of clone_body-Shown.always λ e. search quiet_rules

  -- Whatever the system answers, the process of a container does a first part of this, in this order,
  -- and nothing else of the kind: it executes the hooks of createContainer, changes the root,
  -- executes the hooks of startContainer, and executes the command of the container.
  pub clone_fn-begins :
      (K : Kernel)
      → Begins
          (container_events c.config.hooks p)
          (seen event_of (run K [] (clone_fn retries layers unset c p socket)).1)
  clone_fn-begins K = Within-begins event_of _ _ clone_fn-Within K
