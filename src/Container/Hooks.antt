-- ===== src/Container/Hooks.antt =====
-- src/linyaps_box/container.cpp: execute_hook, and the functions that run the lists of hooks.
pub mod Laws
use linglong_box.Prelude.{
  ℕ, String, ◌<>◌, none, some, List, [], ◌∷◌, ◌++◌, map, is_empty, ◌&&◌, if◌then◌else◌,
}
use linglong_box.Config.{Hook}
use linglong_box.Kernel.{Fd, Pointers, fork_execute, print}
use linglong_box.Program.{Program, ret, throw, call, sys, ◌>>=◌, ◌>>◌, catch, for_each}
use linglong_box.Result.{runtime_error}
use linglong_box.Container.Defs.{Container}
use linglong_box.Container.Sync.{
  request_createruntime_hooks, create_runtime_hooks_executed, create_container_hooks_executed,
  start_container_hooks_executed, send_message, expect_message,
}
use linglong_box.Container.Waiting.{wait_while, again_in_hook, wifexited}

unfoldable pub assignments : List (String × String) → List String
assignments env = map (λ e. e.0 <> ("=" <> e.1)) env

-- `c_args`: the path, the arguments and the null pointer.
unfoldable pub hook_args : Hook → Pointers
hook_args hook = map some (hook.path ∷ hook.args) ++ none ∷ []

-- `c_env`, which no null pointer ends.
unfoldable pub hook_env : Hook → Pointers
hook_env hook = map some (assignments hook.env)

unfoldable pub hook_result : ℕ → Program Unit
hook_result status =
    if wifexited status then ret tt else throw (runtime_error "hook terminated by signal")

unfoldable pub execute_hook : ℕ → Hook → Program Unit
execute_hook retries hook = do
  pid ← sys (fork_execute (hook_args hook) (some (hook_env hook))) "fork"
  status ← wait_while again_in_hook retries pid
  hook_result status

-- `container_ns::wait_create_runtime_result`
unfoldable pub wait_create_runtime_result : ℕ → Container → Fd → Program Unit
wait_create_runtime_result retries c socket =
    if is_empty c.config.hooks.prestart && is_empty c.config.hooks.create_runtime
    then ret tt
    else do
      send_message retries socket request_createruntime_hooks
      expect_message retries socket create_runtime_hooks_executed

-- `container_ns::create_container_hooks`
unfoldable pub create_container_hooks : ℕ → Container → Fd → Program Unit
create_container_hooks retries c socket =
    if is_empty c.config.hooks.create_container then ret tt else do
      for_each (execute_hook retries) c.config.hooks.create_container
      send_message retries socket create_container_hooks_executed

-- `container_ns::start_container_hooks`
unfoldable pub start_container_hooks : ℕ → Container → Fd → Program Unit
start_container_hooks retries c socket =
    if is_empty c.config.hooks.start_container then ret tt else do
      for_each (execute_hook retries) c.config.hooks.start_container
      send_message retries socket start_container_hooks_executed

-- `runtime_ns::prestart_hooks`
unfoldable pub prestart_hooks : ℕ → Container → Program Unit
prestart_hooks retries c =
    if is_empty c.config.hooks.prestart
    then ret tt
    else for_each (execute_hook retries) c.config.hooks.prestart

-- `runtime_ns::create_runtime_hooks`
unfoldable pub create_runtime_hooks : ℕ → Container → Fd → Program Unit
create_runtime_hooks retries c socket =
    if is_empty c.config.hooks.prestart && is_empty c.config.hooks.create_runtime
    then ret tt
    else do
      expect_message retries socket request_createruntime_hooks
      for_each (execute_hook retries) c.config.hooks.prestart
      for_each (execute_hook retries) c.config.hooks.create_runtime
      send_message retries socket create_runtime_hooks_executed

-- `runtime_ns::wait_create_container_result`
unfoldable pub wait_create_container_result : ℕ → Container → Fd → Program Unit
wait_create_container_result retries c socket =
    if is_empty c.config.hooks.create_container
    then ret tt
    else expect_message retries socket create_container_hooks_executed

-- `runtime_ns::poststart_hooks`
unfoldable pub poststart_hooks : ℕ → Container → Program Unit
poststart_hooks retries c =
    if is_empty c.config.hooks.poststart
    then ret tt
    else for_each (execute_hook retries) c.config.hooks.poststart

-- A hook whose exception is printed and dropped.
unfoldable pub execute_and_report : ℕ → Hook → Program Unit
execute_and_report retries hook =
    catch (execute_hook retries hook) λ e. call (print "Error") λ _. ret tt

-- `runtime_ns::poststop_hooks`: the test is on `poststop`, the loop is over `poststart`.
unfoldable pub poststop_hooks : ℕ → Container → Program Unit
poststop_hooks retries c =
    if is_empty c.config.hooks.poststop
    then ret tt
    else for_each (execute_and_report retries) c.config.hooks.poststart
