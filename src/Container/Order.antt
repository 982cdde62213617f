-- ===== src/Container/Order.antt =====
-- The order in which a container's processes run hooks, change the root and execute the command: the
-- calls of interest as events.
pub mod Quiet
pub mod Directory
pub mod Runtime
pub mod Child
pub mod Hooks
use linglong_box.Prelude.{Option, none, some, List, [], ◌∷◌}
use linglong_box.Config.{Hook, Process}
use linglong_box.Kernel.{Pointers, Call, fork_execute, execute, pivot_root}
use linglong_box.Container.Hooks.{hook_args, hook_env}
use linglong_box.Container.Process.{process_args, process_env}

-- `forked` is an attempt to execute a file in a process of its own with an environment of its own, as
-- for a hook: a fork that fails is one too, as far as the events go;
-- `replaced` is an attempt to become another program.
pub data Event : Type 0 where
  forked : Pointers → Pointers → Event
  root_pivoted : Event
  replaced : Pointers → Option Pointers → Event

abbrev pub event_of : Call → List Event
event_of (fork_execute args (some env)) = forked args env ∷ []
event_of (pivot_root new old) = root_pivoted ∷ []
event_of (execute args env) = replaced args env ∷ []
event_of _ = []

abbrev pub hook_event : Hook → Event
hook_event hook = forked (hook_args hook) (hook_env hook)

abbrev pub process_event : Process → Event
process_event p = replaced (process_args p) (some (process_env p))
