-- ===== src/Container/Order/Runtime.antt =====
-- The events of the process that runs a container.
use mathlib.Core.List.{map}
use linglong_box.Prelude.{◌≡◌, ap, ◌∙◌, ℕ, String, List, [], ◌++◌}
use linglong_box.Config.{Hooks}
use linglong_box.Kernel.{Fd, Kernel, Outcome, done, failed}
use linglong_box.Result.{
  ok, Error, invalid_argument, out_of_range, runtime_error, logic_error, system_error,
  file_descriptor_closed, unexpected_sync_message, json_error, undefined, process_replaced,
}
use linglong_box.Status.{Status, StatusDirectory}
use linglong_box.Program.{run}
use linglong_box.Program.Traces.{seen, seen-nil}
use linglong_box.Program.Traces.Quiet.{quiet_rules}
use linglong_box.Program.Traces.Follows.{
  Begins, Within-begins, Follows-bind, Follows-after, Follows-before, Follows-scoped,
}
use linglong_box.Container.Defs.{Container}
use linglong_box.Container.UserNamespace.{
  forked as helper_forked, helper_result, execute_user_namespace_helper, configure_mapping,
  configure_gid_mapping, configure_uid_mapping, configure_mappings, configure_container_namespaces,
}
use linglong_box.Utils.SocketPair.{open_pair}
use linglong_box.Container.Lifecycle.{
  mapped, child_stack, unmapped, destroy_child_stack, cloned, start_container_process,
  closed_is_fine, wait_socket_close, run_container,
}
use linglong_box.Container.Order.{Event, event_of, hook_event}
use linglong_box.Container.Order.Quiet.{IsQuiet, destroy-IsQuiet, quiet_calls}
use linglong_box.Container.Order.Hooks.{
  Shown, wait_create_container_result-IsQuiet, prestart_hooks-Shown, poststart_hooks-Shown,
  create_runtime_hooks-Shown, poststop_events, poststop_hooks-Shown,
}

-- A directory of statuses that neither runs hooks nor changes the root.
pub record IsQuietDirectory (d : StatusDirectory) : Type 0 where
  pub write : (s : Status) → IsQuiet (d.write s)
  pub read : (id : String) → IsQuiet (d.read id)
  pub remove : (id : String) → IsQuiet (d.remove id)

helper_forked-IsQuiet : (r : Outcome ℕ) → IsQuiet (helper_forked r)
helper_forked-IsQuiet (done pid) = search quiet_rules
helper_forked-IsQuiet (failed e) = search quiet_rules

helper_result-IsQuiet : (status : ℕ) → IsQuiet (helper_result status)
unfolding helper_result
helper_result-IsQuiet status = search quiet_rules

execute_user_namespace_helper-IsQuiet :
    (retries : ℕ) (args : List String) → IsQuiet (execute_user_namespace_helper retries args)
unfolding execute_user_namespace_helper
execute_user_namespace_helper-IsQuiet retries args =
    search (quiet_calls, helper_forked-IsQuiet, helper_result-IsQuiet) depth 8

configure_mapping-IsQuiet :
    (retries : ℕ) (helper : String) (pid : ℕ) (mappings : _)
    → IsQuiet (configure_mapping retries helper pid mappings)
unfolding configure_mapping
configure_mapping-IsQuiet retries helper pid mappings =
    search (quiet_rules, execute_user_namespace_helper-IsQuiet)

configure_mappings-IsQuiet :
    (retries : ℕ) (c : Container)
    → IsQuietDirectory c.status_dir
    → IsQuiet (configure_mappings retries c)
unfolding configure_mappings configure_gid_mapping configure_uid_mapping
configure_mappings-IsQuiet retries c quiet =
    search (quiet_rules, quiet.read, configure_mapping-IsQuiet) depth 8

configure_container_namespaces-IsQuiet :
    (retries : ℕ) (c : Container) (socket : Fd)
    → IsQuietDirectory c.status_dir
    → IsQuiet (configure_container_namespaces retries c socket)
unfolding configure_container_namespaces
configure_container_namespaces-IsQuiet retries c socket quiet =
    search (quiet_calls, configure_mappings-IsQuiet)

cloned-IsQuiet : (r : Outcome ℕ) → IsQuiet (cloned r)
cloned-IsQuiet (done pid) = search quiet_rules
cloned-IsQuiet (failed e) = search quiet_rules

open_pair-IsQuiet : (domain type protocol : ℕ) → IsQuiet (open_pair domain type protocol)
unfolding open_pair
open_pair-IsQuiet domain type protocol = search quiet_rules

mapped-IsQuiet : (r : Outcome ℕ) → IsQuiet (mapped r)
mapped-IsQuiet (done low) = search quiet_rules
mapped-IsQuiet (failed e) = search quiet_rules

child_stack-IsQuiet : IsQuiet child_stack
unfolding child_stack
child_stack-IsQuiet = search (quiet_rules, mapped-IsQuiet)

unmapped-IsQuiet : (r : Outcome Unit) → IsQuiet (unmapped r)
unmapped-IsQuiet (done _) = search quiet_rules
unmapped-IsQuiet (failed e) = search quiet_rules

destroy_child_stack-IsQuiet : (low : ℕ) → IsQuiet (destroy_child_stack low)
unfolding destroy_child_stack
destroy_child_stack-IsQuiet low = search (quiet_rules, unmapped-IsQuiet)

start_container_process-IsQuiet : (c : Container) → IsQuiet (start_container_process c)
unfolding start_container_process
start_container_process-IsQuiet c =
    search
      (
        open_pair-IsQuiet, child_stack-IsQuiet, destroy_child_stack-IsQuiet, quiet_rules,
        destroy-IsQuiet, cloned-IsQuiet,
      )
      depth 16

closed_is_fine-IsQuiet : (e : Error) → IsQuiet (closed_is_fine e)
closed_is_fine-IsQuiet (invalid_argument w) = search quiet_rules
closed_is_fine-IsQuiet out_of_range = search quiet_rules
closed_is_fine-IsQuiet (runtime_error w) = search quiet_rules
closed_is_fine-IsQuiet (logic_error w) = search quiet_rules
closed_is_fine-IsQuiet (system_error n w) = search quiet_rules
closed_is_fine-IsQuiet file_descriptor_closed = search quiet_rules
closed_is_fine-IsQuiet (unexpected_sync_message a b) = search quiet_rules
closed_is_fine-IsQuiet json_error = search quiet_rules
closed_is_fine-IsQuiet (undefined w) = search quiet_rules
closed_is_fine-IsQuiet process_replaced = search quiet_rules

wait_socket_close-IsQuiet : (retries : ℕ) (socket : Fd) → IsQuiet (wait_socket_close retries socket)
unfolding wait_socket_close
wait_socket_close-IsQuiet retries socket = search (quiet_calls, closed_is_fine-IsQuiet)

-- The hooks that a container's run executes in the process that runs it.
pub runtime_events : Hooks → List Event
runtime_events hooks =
    map hook_event hooks.prestart
    ++ ((map hook_event hooks.prestart ++ map hook_event hooks.create_runtime)
        ++ (map hook_event hooks.poststart ++ poststop_events hooks.poststop hooks.poststart))

run_container-Shown :
    (retries : ℕ) (c : Container)
    → IsQuietDirectory c.status_dir
    → Shown (run_container retries c) (runtime_events c.config.hooks)
unfolding run_container runtime_events
run_container-Shown retries c quiet =
    Follows-after event_of (start_container_process-IsQuiet c) λ started.
      Follows-scoped event_of (destroy-IsQuiet started.1) (
        Follows-after event_of (quiet.read _) λ first. Follows-after event_of (quiet.write _) λ _.
          Follows-after event_of (configure_container_namespaces-IsQuiet retries c _ quiet) λ _.
            Follows-bind event_of (prestart_hooks-Shown retries c) λ _.
              Follows-bind event_of (create_runtime_hooks-Shown retries c _) λ _.
                Follows-after event_of (wait_create_container_result-IsQuiet retries c _) λ _.
                  Follows-after event_of (wait_socket_close-IsQuiet retries _) λ _.
                    Follows-bind event_of (poststart_hooks-Shown retries c) λ _.
                      Follows-after event_of (quiet.read _) λ waited.
                        Follows-after event_of (search quiet_calls) λ exit_code.
                          Follows-after event_of (quiet.read _) λ last.
                            Follows-after event_of (quiet.write _) λ _.
                              Follows-before event_of (poststop_hooks-Shown retries c)
                                λ _. search (quiet_rules, quiet.remove))

module _ (retries : ℕ) (c : Container) (K : Kernel) where
  -- A run of a container that returns has forked to execute, in this order, the hooks of prestart, those of
  -- prestart once more, those of createRuntime, those of poststart and, unless there are no hooks of
  -- poststop, those of poststart once more, and no other hook, where a fork that fails is counted as
  -- well (a failure of the last hooks is caught). This holds of every list of hooks and of whatever the system answers, if the directory of statuses executes no hook itself.
  pub run_container-events :
      IsQuietDirectory c.status_dir
      → (exit_code : ℕ) → (run K [] (run_container retries c)).0 ≡ ok exit_code
      → seen event_of (run K [] (run_container retries c)).1 ≡ runtime_events c.config.hooks
  run_container-events quiet exit_code e =
      (run_container-Shown retries c quiet).returns.at K [] exit_code e
      ∙ ap (λ (l : List Event). l ++ runtime_events c.config.hooks) (seen-nil event_of)

  -- However a run of a container ends, the hooks that it has forked to execute are, in order, a first
  -- part of those that a run that returns forks to execute, a fork that fails included, if the directory of statuses executes no hook itself.
  pub run_container-begins :
      IsQuietDirectory c.status_dir
      → Begins
          (runtime_events c.config.hooks)
          (seen event_of (run K [] (run_container retries c)).1)
  run_container-begins quiet =
      Within-begins event_of _ _ (run_container-Shown retries c quiet).always K
