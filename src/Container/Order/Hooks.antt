-- ===== src/Container/Order/Hooks.antt =====
-- The events of the functions that run lists of hooks.
use mathlib.Core.List.{map}
use linglong_box.Prelude.{ℕ, some, List, [], ◌∷◌, ◌++◌, is_empty, ◌&&◌, if◌then◌else◌}
use linglong_box.Config.{Hook}
use linglong_box.Kernel.{Fd, fork_execute}
use linglong_box.Program.{Program, ret, for_each}
use linglong_box.Program.Traces.{Always}
use linglong_box.Program.Traces.Binds.{Always-bind, Always-sys, Always-catch}
use linglong_box.Program.Traces.Quiet.{quiet_rules, quiet-ret}
use linglong_box.Program.Traces.Follows.{
  Follows, Follows-Always, Follows-bind, Follows-after, Follows-before, Follows-for_each,
}
use linglong_box.Container.Defs.{Container}
use linglong_box.Container.Hooks.{
  hook_args, hook_env, hook_result, execute_hook, wait_create_runtime_result,
  create_container_hooks, start_container_hooks, prestart_hooks, create_runtime_hooks,
  wait_create_container_result, poststart_hooks, execute_and_report, poststop_hooks,
}
use linglong_box.Container.Order.{Event, event_of, hook_event}
use linglong_box.Container.Order.Quiet.{IsQuiet, quiet_calls}

abbrev pub Shown : {A : Type 0} → Program A → List Event → Type 0
Shown m xs = Follows event_of m xs

hook_result-IsQuiet : (status : ℕ) → IsQuiet (hook_result status)
unfolding hook_result
hook_result-IsQuiet status = search quiet_rules

execute_hook-Always :
    (retries : ℕ) (hook : Hook) → Always event_of (execute_hook retries hook) (hook_event hook ∷ [])
unfolding execute_hook
execute_hook-Always retries hook =
    Always-bind event_of
      (Always-sys event_of (fork_execute (hook_args hook) (some (hook_env hook))) "fork")
      λ pid. search (quiet_calls, hook_result-IsQuiet)

hooks-Shown :
    (retries : ℕ) (hooks : List Hook)
    → Shown (for_each (execute_hook retries) hooks) (map hook_event hooks)
hooks-Shown retries hooks =
    Follows-for_each event_of (λ hook. Follows-Always event_of (execute_hook-Always retries hook))
      hooks

nothing-Shown : Shown (ret tt) []
nothing-Shown = Follows-Always event_of (quiet-ret tt)

-- Hooks that are run unless there are none.
unless_empty :
    (hooks : List Hook) (m : Program Unit)
    → Shown m (map hook_event hooks)
    → Shown (if is_empty hooks then ret tt else m) (map hook_event hooks)
unless_empty [] m p = nothing-Shown
unless_empty (hook ∷ hooks) m p = p

unless_both_empty :
    (xs ys : List Hook) (m : Program Unit)
    → Shown m (map hook_event xs ++ map hook_event ys)
    → Shown
        (if is_empty xs && is_empty ys then ret tt else m)
        (map hook_event xs ++ map hook_event ys)
unless_both_empty [] [] m p = nothing-Shown
unless_both_empty [] (y ∷ ys) m p = p
unless_both_empty (x ∷ xs) ys m p = p

-- The loop is over `poststart`, and is made if `poststop` is not empty.
pub poststop_events : List Hook → List Hook → List Event
poststop_events [] _ = []
poststop_events (_ ∷ _) poststart = map hook_event poststart

module _ (retries : ℕ) (c : Container) where
  pub wait_create_runtime_result-IsQuiet :
      (socket : Fd) → IsQuiet (wait_create_runtime_result retries c socket)
  unfolding wait_create_runtime_result
  wait_create_runtime_result-IsQuiet socket = search quiet_calls

  pub wait_create_container_result-IsQuiet :
      (socket : Fd) → IsQuiet (wait_create_container_result retries c socket)
  unfolding wait_create_container_result
  wait_create_container_result-IsQuiet socket = search quiet_calls

  pub create_container_hooks-Shown :
      (socket : Fd)
      → Shown
          (create_container_hooks retries c socket)
          (map hook_event c.config.hooks.create_container)
  unfolding create_container_hooks
  create_container_hooks-Shown socket = unless_empty c.config.hooks.create_container _ (
      Follows-before event_of (hooks-Shown retries c.config.hooks.create_container)
        λ _. search quiet_calls)

  pub start_container_hooks-Shown :
      (socket : Fd)
      → Shown
          (start_container_hooks retries c socket)
          (map hook_event c.config.hooks.start_container)
  unfolding start_container_hooks
  start_container_hooks-Shown socket = unless_empty c.config.hooks.start_container _ (
      Follows-before event_of (hooks-Shown retries c.config.hooks.start_container)
        λ _. search quiet_calls)

  pub prestart_hooks-Shown :
      Shown (prestart_hooks retries c) (map hook_event c.config.hooks.prestart)
  unfolding prestart_hooks
  prestart_hooks-Shown =
      unless_empty c.config.hooks.prestart _ (hooks-Shown retries c.config.hooks.prestart)

  pub poststart_hooks-Shown :
      Shown (poststart_hooks retries c) (map hook_event c.config.hooks.poststart)
  unfolding poststart_hooks
  poststart_hooks-Shown =
      unless_empty c.config.hooks.poststart _ (hooks-Shown retries c.config.hooks.poststart)

  -- The hooks of `prestart` are run here too.
  pub create_runtime_hooks-Shown :
      (socket : Fd)
      → Shown
          (create_runtime_hooks retries c socket)
          (map hook_event c.config.hooks.prestart ++ map hook_event c.config.hooks.create_runtime)
  unfolding create_runtime_hooks
  create_runtime_hooks-Shown socket =
      unless_both_empty c.config.hooks.prestart c.config.hooks.create_runtime _ (
        Follows-after event_of (search quiet_calls) λ _.
          Follows-bind event_of (hooks-Shown retries c.config.hooks.prestart) λ _.
            Follows-before event_of (hooks-Shown retries c.config.hooks.create_runtime)
              λ _. search quiet_calls)

  execute_and_report-Always :
      (hook : Hook) → Always event_of (execute_and_report retries hook) (hook_event hook ∷ [])
  unfolding execute_and_report
  execute_and_report-Always hook =
      Always-catch event_of (execute_hook-Always retries hook) λ e. search quiet_rules

  poststop_if :
      (xs ys : List Hook)
      → Shown
          (if is_empty xs then ret tt else for_each (execute_and_report retries) ys)
          (poststop_events xs ys)
  unfolding poststop_events
  poststop_if [] ys = nothing-Shown
  poststop_if (x ∷ xs) ys =
      Follows-for_each event_of (λ hook. Follows-Always event_of (execute_and_report-Always hook))
        ys

  pub poststop_hooks-Shown :
      Shown
        (poststop_hooks retries c)
        (poststop_events c.config.hooks.poststop c.config.hooks.poststart)
  unfolding poststop_hooks
  poststop_hooks-Shown = poststop_if c.config.hooks.poststop c.config.hooks.poststart
