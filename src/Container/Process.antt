-- ===== src/Container/Process.antt =====
-- src/linyaps_box/container.cpp: execute_process and do_pivot_root.
pub mod Laws
use linglong_box.Prelude.{
  ℕ, zero, suc, Option, none, some, List, [], ◌∷◌, ◌++◌, map, bit_or, ◌==◌, if◌then◌else◌,
}
use linglong_box.Config.{Process}
use linglong_box.Kernel.{
  Pointers, chdir, fchdir, setgid, setgroups, setuid, mount_at, pivot_root, umount2, proc_path,
  done, failed,
}
use linglong_box.Program.{Program, ret, throw, call, sys, become, ◌>>=◌, ◌>>◌}
use linglong_box.Result.{system_error, undefined}
use linglong_box.Linux.Ms
use linglong_box.Linux.Open
use linglong_box.Linux.Errno
use linglong_box.Utils.Files.{open_file}
use linglong_box.Utils.Paths.{append}
use linglong_box.Container.Defs.{Container}
use linglong_box.Container.Hooks.{assignments}

-- `c_args` and `c_env`, each with its null pointer.
unfoldable pub process_args : Process → Pointers
process_args p = map some p.args ++ none ∷ []

unfoldable pub process_env : Process → Pointers
process_env p = map some (assignments p.env) ++ none ∷ []

unfoldable pub set_groups : Option (List ℕ) → Program Unit
set_groups none = ret tt
set_groups (some gids) = sys (setgroups gids) "setgroups"

unfoldable pub execute_process : Process → Program Unit
execute_process p = do
  sys (chdir p.cwd) "chdir"
  sys (setgid p.uid) "setgid"
  set_groups p.additional_gids
  sys (setuid p.uid) "setuid"
  become (process_args p) (some (process_env p)) "execvpe"

-- The `do … while` over `umount2`, which ends by EINVAL; `layers` bounds how often it goes round.
unfoldable pub unmount_all : ℕ → Program Unit
unmount_all zero = throw (undefined "layers used up")
unmount_all (suc layers) = call (umount2 "." Ms.mnt_detach) λ r. elim r [
  | done _ ↦ unmount_all layers
  | failed e ↦ if e == Errno.einval then ret tt else throw (system_error e "umount2")
]

abbrev pub root_flags : ℕ
root_flags = bit_or (bit_or Open.directory Open.path) Open.cloexec

unfoldable pub do_pivot_root : ℕ → Container → Program Unit
do_pivot_root layers c = do
  let new_path = append c.bundle c.config.root.path
  old_root ← open_file "/" root_flags
  bind_fd ← open_file new_path root_flags
  sys (mount_at none "/" none (bit_or Ms.recursive Ms.private_mount) none) "mount"
  sys
      (mount_at (some (proc_path bind_fd)) (proc_path bind_fd) none (bit_or Ms.bind Ms.recursive)
        none)
      "mount"
  new_root ← open_file new_path root_flags
  sys (fchdir new_root) "fchdir"
  sys (pivot_root "." ".") "pivot_root"
  sys (umount2 "." Ms.mnt_detach) "umount2"
  unmount_all layers
  sys (chdir "/") "chdir"
