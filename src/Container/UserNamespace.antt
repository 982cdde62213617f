-- ===== src/Container/UserNamespace.antt =====
-- src/linyaps_box/container.cpp: execute_user_namespace_helper, the two functions that call it, and
-- configure_container_namespaces on both sides.
pub mod Laws
use linglong_box.Prelude.{
  ℕ, String, Bool, true, false, none, some, List, [], ◌∷◌, ◌++◌, map, is_empty, ◌||◌, ◌&&◌, ◌==◌,
  if◌then◌else◌,
}
use linglong_box.Prelude.Decimal.{to_string}
use linglong_box.Config.{IdMapping, Namespace, NamespaceType, user}
use linglong_box.Kernel.{Fd, fork_execute, Outcome, done, failed}
use linglong_box.Program.{Program, ret, throw, call, ◌>>=◌, ◌>>◌}
use linglong_box.Result.{runtime_error}
use linglong_box.Container.Defs.{Container}
use linglong_box.Container.Sync.{
  request_configure_namespace, namespace_configured, send_message, expect_message,
}
use linglong_box.Container.Waiting.{wait_while, again_elsewhere, wifexited, wexitstatus}

abbrev pub forked : Outcome ℕ → Program ℕ
forked (done pid) = ret pid
forked (failed e) = throw (runtime_error "fork failed")

unfoldable pub helper_result : ℕ → Program Unit
helper_result status =
    if wifexited status && wexitstatus status == 0
    then ret tt
    else throw (runtime_error "user_namespace helper exited abnormally")

unfoldable pub execute_user_namespace_helper : ℕ → List String → Program Unit
execute_user_namespace_helper retries args = do
  r ← call (fork_execute (map some args ++ none ∷ []) none) ret
  pid ← forked r
  status ← wait_while again_elsewhere retries pid
  helper_result status

unfoldable pub mapping_args : List IdMapping → List String
mapping_args [] = []
mapping_args (m ∷ ms) =
    to_string m.container_id ∷ to_string m.host_id ∷ to_string m.size ∷ mapping_args ms

-- `configure_gid_mapping` and `configure_uid_mapping` differ in the helper alone.
unfoldable pub configure_mapping : ℕ → String → ℕ → List IdMapping → Program Unit
configure_mapping retries helper pid mappings =
    if is_empty mappings
    then ret tt
    else execute_user_namespace_helper retries (helper ∷ to_string pid ∷ mapping_args mappings)

unfoldable pub configure_gid_mapping : ℕ → ℕ → List IdMapping → Program Unit
configure_gid_mapping retries pid mappings = configure_mapping retries "newgidmap" pid mappings

unfoldable pub configure_uid_mapping : ℕ → ℕ → List IdMapping → Program Unit
configure_uid_mapping retries pid mappings = configure_mapping retries "newuidmap" pid mappings

abbrev pub is_user : NamespaceType → Bool
is_user user = true
is_user _ = false

-- `std::find_if(…) != end()`
unfoldable pub has_user_namespace : List Namespace → Bool
has_user_namespace [] = false
has_user_namespace (ns ∷ rest) = is_user ns.type || has_user_namespace rest

unfoldable pub configure_mappings : ℕ → Container → Program Unit
configure_mappings retries c =
    if has_user_namespace c.config.namespaces
    then (c.status_dir.read c.id >>= λ status.
        configure_gid_mapping retries status.pid c.config.gid_mappings
        >> configure_uid_mapping retries status.pid c.config.uid_mappings)
    else ret tt

-- `runtime_ns::configure_container_namespaces`; `configure_container_cgroup` does nothing yet.
unfoldable pub configure_container_namespaces : ℕ → Container → Fd → Program Unit
configure_container_namespaces retries c socket = do
  expect_message retries socket request_configure_namespace
  configure_mappings retries c
  send_message retries socket namespace_configured

-- `container_ns::configure_container_namespaces`
unfoldable pub request_container_namespaces : ℕ → Fd → Program Unit
request_container_namespaces retries socket = do
  send_message retries socket request_configure_namespace
  expect_message retries socket namespace_configured
