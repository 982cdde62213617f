-- ===== src/Container/UserNamespace/Laws.antt =====
-- The helpers that map the users and groups of a container.
use linglong_box.Prelude.{ℕ, String, none, some, List, [], ◌∷◌, ◌++◌, map}
use linglong_box.Prelude.Decimal.{to_string}
use linglong_box.Config.{IdMapping}
use linglong_box.Kernel.{Call, Kernel, Pointers, fork_execute}
use linglong_box.Program.{Program}
use linglong_box.Program.Traces.{Always}
use linglong_box.Program.Traces.Follows.{Follows}
use linglong_box.Status.{Status}
use linglong_box.Container.Defs.{Container}
use linglong_box.Container.UserNamespace.{mapping_args}

-- The arguments of the programs that are executed in a process of their own.
abbrev pub executed : Call → List Pointers
executed (fork_execute args env) = args ∷ []
executed _ = []

abbrev pub IsQuiet : {A : Type 0} → Program A → Type 0
IsQuiet m = Always executed m []

-- The helper for a list of mappings, if there are any.
pub helper_call : String → ℕ → List IdMapping → List Pointers
helper_call helper pid [] = []
helper_call helper pid (m ∷ ms) =
    (map some (helper ∷ to_string pid ∷ mapping_args (m ∷ ms)) ++ none ∷ []) ∷ []
