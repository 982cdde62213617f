-- ===== src/Container/Handshake/Scripts.antt =====
-- What the two processes say to one another when a container is run, from the hooks that it has.
use linglong_box.Prelude.{List, [], ◌∷◌, ◌++◌, is_empty, ◌&&◌, if◌then◌else◌}
use linglong_box.Config.{Hooks}
use linglong_box.Program.Sessions.{Act, container_side, runtime_side}
use linglong_box.Container.Sync.{
  byte_of, request_configure_namespace, namespace_configured, request_createruntime_hooks,
  create_runtime_hooks_executed, create_container_hooks_executed, start_container_hooks_executed,
}

abbrev pub namespace_acts : List Act
namespace_acts =
    (container_side, byte_of request_configure_namespace)
    ∷ (runtime_side, byte_of namespace_configured)
    ∷ []

abbrev pub create_runtime_acts : Hooks → List Act
create_runtime_acts hooks =
    if is_empty hooks.prestart && is_empty hooks.create_runtime
    then []
    else (container_side, byte_of request_createruntime_hooks)
      ∷ (runtime_side, byte_of create_runtime_hooks_executed)
      ∷ []

abbrev pub create_container_acts : Hooks → List Act
create_container_acts hooks =
    if is_empty hooks.create_container
    then []
    else (container_side, byte_of create_container_hooks_executed) ∷ []

abbrev pub start_container_acts : Hooks → List Act
start_container_acts hooks =
    if is_empty hooks.start_container
    then []
    else (container_side, byte_of start_container_hooks_executed) ∷ []

abbrev pub script : Hooks → List Act
script hooks =
    namespace_acts
    ++ (create_runtime_acts hooks ++ (create_container_acts hooks ++ start_container_acts hooks))
