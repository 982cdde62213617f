-- ===== src/Container/CloneFlag.antt =====
-- src/linyaps_box/container.cpp: generate_clone_flag.
pub mod Laws
use linglong_box.Prelude.{ℕ, List, [], ◌∷◌, bit_or, if◌then◌else◌}
use linglong_box.Prelude.Bits.{has_any}
use linglong_box.Config.{NamespaceType, invalid, ipc, uts, mount, pid, net, user, cgroup, Namespace}
use linglong_box.Linux.Clone
use linglong_box.Result.{Result, ok, err, invalid_argument}

-- The values of the enumerators of `namespace_t::type_t`.
abbrev pub type_value : NamespaceType → ℕ
type_value invalid = 0
type_value ipc = Clone.newipc
type_value uts = Clone.newuts
type_value mount = Clone.newns
type_value pid = Clone.newpid
type_value net = Clone.newnet
type_value user = Clone.newuser
type_value cgroup = Clone.newcgroup

-- The test for duplicates, behind the `switch`.
unfoldable pub check_duplicate : ℕ → ℕ → ℕ → (ℕ → ℕ → Result ℕ) → Result ℕ
check_duplicate value flag setted rest =
    if has_any setted value
    then err (invalid_argument "duplicate namespace")
    else rest (bit_or flag value) (bit_or setted value)

-- One round: the `switch`, whose `default` is reached for INVALID, and the test behind it.
unfoldable pub visit : NamespaceType → ℕ → ℕ → (ℕ → ℕ → Result ℕ) → Result ℕ
visit invalid flag setted rest = err (invalid_argument "invalid namespace")
visit t flag setted rest = check_duplicate (type_value t) flag setted rest

-- The loop over the namespaces.
unfoldable pub add_namespaces : List Namespace → ℕ → ℕ → Result ℕ
add_namespaces [] flag setted = ok flag
add_namespaces (ns ∷ rest) flag setted = visit ns.type flag setted (add_namespaces rest)

unfoldable pub generate_clone_flag : List Namespace → Result ℕ
generate_clone_flag namespaces = add_namespaces namespaces Clone.sigchld 0
