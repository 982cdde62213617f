-- ===== src/Container/ReadonlyTmpfs.antt =====
-- src/linyaps_box/container.cpp: the mount of a tmpfs that is read-only.
use linglong_box.Prelude.{◌≡◌, refl, All, ℕ, String, true, false, Option, none, []}
use linglong_box.Prelude.Bits.{has_any}
use linglong_box.Config.{Mount}
use linglong_box.Kernel.{Fd, Kernel, proc_path}
use linglong_box.Linux.Ms
use linglong_box.Program.{run}
use linglong_box.Program.Only.{Only, only_rules, Only-bind, Only-call, Only-value_or}
use linglong_box.Utils.Descriptor.{move_from, move_assign}
use linglong_box.Container.Mounts.{
  system_call_mount, do_propagation_mount, is_readonly_tmpfs, delay_readonly, do_plain_mount,
  do_mount,
}
use linglong_box.Container.OnDescriptors.{
  OnTarget, MountsOn, value-OnTargets, ensure_mount_destination-OnTargets,
}

abbrev pub IsMinusOne : String → Type 0
IsMinusOne target = target ≡ "/proc/self/fd/-1"

system_call_mount-MountsOn :
    (source type : Option String) (flags : ℕ) (text : Option String)
    → Only (MountsOn IsMinusOne) (system_call_mount source (proc_path none) type flags text)
unfolding system_call_mount OnTarget proc_path
system_call_mount-MountsOn source type flags text =
    Only-call _ _ (record { target = refl }) λ r. Only-value_or "mount" r

propagation-MountsOn : (flags : ℕ) → Only (MountsOn IsMinusOne) (do_propagation_mount none flags)
unfolding do_propagation_mount
propagation-MountsOn flags = search (only_rules, system_call_mount-MountsOn)

do_plain_mount-MountsOn :
    (root : Fd) (m : Mount)
    → is_readonly_tmpfs m ≡ true
    → Only (MountsOn IsMinusOne) (do_plain_mount root m)
unfolding do_plain_mount delay_readonly move_from move_assign
do_plain_mount-MountsOn root m tmpfs =
    Only-bind _ _ (ensure_mount_destination-OnTargets false root m) λ fd. rw tmpfs (
      search (only_rules, value-OnTargets, system_call_mount-MountsOn, propagation-MountsOn) depth
        12)

-- Whatever the system answers, do_mount makes every mount of a tmpfs whose options have the flag for
-- read-only and not the one for a bind mount on the path of the descriptor -1: the descriptor of the
-- destination has been moved into the delayed mount.
pub do_mount-IsMinusOne :
    (root : Fd) (m : Mount) (K : Kernel)
    → has_any m.flags Ms.bind ≡ false
    → is_readonly_tmpfs m ≡ true
    → All (MountsOn IsMinusOne) (run K [] (do_mount root m)).1
unfolding do_mount
do_mount-IsMinusOne root m K plain tmpfs =
    rw plain ((do_plain_mount-MountsOn root m tmpfs).at K [] tt)
