-- ===== src/Container/Handshake/Runtime.antt =====
-- src/linyaps_box/container.cpp: the side of the runtime, from run on.
use linglong_box.Prelude.{ℕ, refl, String, List, [], ◌∷◌, ◌++◌, is_empty, ◌&&◌, if◌then◌else◌}
use linglong_box.Config.{Hook, IdMapping}
use linglong_box.Kernel.{Fd, Outcome, done, failed}
use linglong_box.Program.{Program}
use linglong_box.Program.Avoids.{avoids_rules, Avoids-each}
use linglong_box.Program.Sessions.{Act, container_side, runtime_side, Conforms, Silent}
use linglong_box.Program.Sessions.Rules.{
  Silent-then, Silent-Conforms, Conforms-bind, Conforms-unless,
}
use linglong_box.Status.{Status, StatusDirectory}
use linglong_box.Container.Defs.{Container}
use linglong_box.Container.Hooks.{
  prestart_hooks, create_runtime_hooks, wait_create_container_result, poststart_hooks,
  execute_and_report, poststop_hooks,
}
use linglong_box.Container.Lifecycle.{wait_socket_close, run_started}
use linglong_box.Container.UserNamespace.{
  forked, helper_result, execute_user_namespace_helper, configure_mapping, configure_gid_mapping,
  configure_uid_mapping, configure_mappings, configure_container_namespaces,
}
use linglong_box.Container.Handshake.Container.{execute_hook-Silent}
use linglong_box.Container.Handshake.Silent.{silent_calls}
use linglong_box.Container.Handshake.Messages.{
  send_message-Conforms, expect_message-Conforms, wait-byte, wait-end,
}
use linglong_box.Container.Handshake.Scripts.{
  namespace_acts, create_runtime_acts, create_container_acts, start_container_acts, script,
}

-- A directory of statuses uses no socket and throws no exception about a message.
pub record IsSilentDirectory (d : StatusDirectory) : Type 0 where
  pub write : (s : Status) → Silent (d.write s)
  pub read : (id : String) → Silent (d.read id)
  pub remove : (id : String) → Silent (d.remove id)

forked-Silent : (r : Outcome ℕ) → Silent (forked r)
forked-Silent (done pid) = search avoids_rules
forked-Silent (failed e) = search avoids_rules

helper_result-Silent : (status : ℕ) → Silent (helper_result status)
unfolding helper_result
helper_result-Silent status = search avoids_rules

execute_user_namespace_helper-Silent :
    (retries : ℕ) (args : List String) → Silent (execute_user_namespace_helper retries args)
unfolding execute_user_namespace_helper
execute_user_namespace_helper-Silent retries args =
    search (silent_calls, forked-Silent, helper_result-Silent)

configure_mapping-Silent :
    (retries : ℕ) (helper : String) (pid : ℕ) (ms : List IdMapping)
    → Silent (configure_mapping retries helper pid ms)
unfolding configure_mapping
configure_mapping-Silent retries helper pid ms =
    search (avoids_rules, execute_user_namespace_helper-Silent)

module _ (retries : ℕ) (c : Container) (silent : IsSilentDirectory c.status_dir) where
  configure_mappings-Silent : Silent (configure_mappings retries c)
  unfolding configure_mappings configure_gid_mapping configure_uid_mapping
  configure_mappings-Silent = search (avoids_rules, silent.read, configure_mapping-Silent)

  prestart_hooks-Silent : Silent (prestart_hooks retries c)
  unfolding prestart_hooks
  prestart_hooks-Silent = search (avoids_rules, execute_hook-Silent)

  poststart_hooks-Silent : Silent (poststart_hooks retries c)
  unfolding poststart_hooks
  poststart_hooks-Silent = search (avoids_rules, execute_hook-Silent)

  poststop_hooks-Silent : Silent (poststop_hooks retries c)
  unfolding poststop_hooks execute_and_report
  poststop_hooks-Silent = search (avoids_rules, execute_hook-Silent)

  module _ (socket : Fd) where
    abbrev Says : {A : Type 0} → List Act → Program A → List Act → Type 0
    Says s m t = Conforms runtime_side container_side socket s m t

    configure_container_namespaces-Conforms :
        (s : List Act)
        → Says (namespace_acts ++ s) (configure_container_namespaces retries c socket) s
    unfolding configure_container_namespaces
    configure_container_namespaces-Conforms s =
        Conforms-bind (expect_message-Conforms _ retries _)
          λ _. Silent-then configure_mappings-Silent λ _. send_message-Conforms s retries _

    create_runtime_hooks-Conforms :
        (s : List Act)
        → Says (create_runtime_acts c.config.hooks ++ s) (create_runtime_hooks retries c socket) s
    unfolding create_runtime_hooks
    create_runtime_hooks-Conforms s =
        Conforms-unless (is_empty c.config.hooks.prestart && is_empty c.config.hooks.create_runtime)
          _
          (Conforms-bind (expect_message-Conforms _ retries _) λ _.
            Silent-then (Avoids-each _ c.config.hooks.prestart (execute_hook-Silent retries)) λ _.
              Silent-then
                (Avoids-each _ c.config.hooks.create_runtime (execute_hook-Silent retries))
                λ _. send_message-Conforms s retries _)

    wait_create_container_result-Conforms :
        (s : List Act)
        → Says
            (create_container_acts c.config.hooks ++ s)
            (wait_create_container_result retries c socket)
            s
    unfolding wait_create_container_result
    wait_create_container_result-Conforms s =
        Conforms-unless (is_empty c.config.hooks.create_container) _
          (expect_message-Conforms s retries _)

    wait_socket_close-Conforms :
        Says (start_container_acts c.config.hooks) (wait_socket_close retries socket) []
    wait_socket_close-Conforms = close_after c.config.hooks.start_container
      where
        close_after :
            (hooks : List Hook)
            → Says
                (if is_empty hooks then [] else (container_side, 5) ∷ [])
                (wait_socket_close retries socket)
                []
        close_after [] = wait-end retries refl
        close_after (_ ∷ _) = wait-byte retries 5

    pub run_started-Conforms :
        (child_pid : ℕ) → Says (script c.config.hooks) (run_started retries c child_pid socket) []
    run_started-Conforms child_pid = Silent-then (silent.read _) λ first.
        Silent-then (silent.write _) λ _.
          Conforms-bind (configure_container_namespaces-Conforms _) λ _.
            Silent-then prestart_hooks-Silent λ _.
              Conforms-bind (create_runtime_hooks-Conforms _) λ _.
                Conforms-bind (wait_create_container_result-Conforms _) λ _.
                  Conforms-bind wait_socket_close-Conforms λ _. Silent-Conforms (
                    search
                      (
                        silent_calls, silent.write, silent.read, silent.remove,
                        poststart_hooks-Silent, poststop_hooks-Silent,
                      )
                      depth 24 fits 4000)
