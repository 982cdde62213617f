-- ===== src/Container/MountTargets.antt =====
-- The calls of mount that set the mounts up are made on descriptors.
use linglong_box.Prelude.{refl, All, ℕ, String, Option, none, some, List, [], ◌∷◌}
use linglong_box.Config.{Mount}
use linglong_box.Kernel.{Fd, Kernel, proc_path}
use linglong_box.Program.{run}
use linglong_box.Program.Only.{only_rules, Only-bind, Only-call, Only-value_or}
use linglong_box.Container.Defs.{Container}
use linglong_box.Container.Mounts.{
  system_call_mount, DelayedMount, do_delay_readonly_mount, do_propagation_mount, do_bind_mount,
  do_plain_mount, do_mount, directory_is_empty,
}
use linglong_box.Container.Mounter.{
  Unset, Remounts, mount, mount_all, file_system_at, configure_proc, configure_sys, configure_dev,
  mount_if_missing, configure_default_filesystems, try_open, make_if_missing, configure_device,
  configure_default_devices, finalize, configure_mounts,
}
use linglong_box.Container.OnDescriptors.{
  OnTarget, IsOnDescriptor, OnDescriptors, only_calls, value-OnTargets,
  ensure_mount_destination-OnTargets,
}

system_call_mount-OnDescriptors :
    (source : Option String) (fd : Fd) (type : Option String) (flags : ℕ) (text : Option String)
    → OnDescriptors (system_call_mount source (proc_path fd) type flags text)
unfolding system_call_mount OnTarget
system_call_mount-OnDescriptors source fd type flags text =
    Only-call _ _ (record { target = (fd, refl) }) λ r. Only-value_or "mount" r

do_delay_readonly_mount-OnDescriptors :
    (m : DelayedMount) → OnDescriptors (do_delay_readonly_mount m)
unfolding OnTarget do_delay_readonly_mount
do_delay_readonly_mount-OnDescriptors m = search (only_rules, system_call_mount-OnDescriptors)

do_propagation_mount-OnDescriptors :
    (fd : Fd) (flags : ℕ) → OnDescriptors (do_propagation_mount fd flags)
unfolding OnTarget do_propagation_mount
do_propagation_mount-OnDescriptors fd flags = search (only_rules, system_call_mount-OnDescriptors)

ruleset mount_rules = (
  only_calls, value-OnTargets, system_call_mount-OnDescriptors, ensure_mount_destination-OnTargets,
  do_propagation_mount-OnDescriptors,
)

do_bind_mount-OnDescriptors : (root : Fd) (m : Mount) → OnDescriptors (do_bind_mount root m)
unfolding OnTarget do_bind_mount
do_bind_mount-OnDescriptors root m = search mount_rules depth 12

do_plain_mount-OnDescriptors : (root : Fd) (m : Mount) → OnDescriptors (do_plain_mount root m)
unfolding OnTarget do_plain_mount
do_plain_mount-OnDescriptors root m = search mount_rules depth 12

do_mount-OnDescriptors : (root : Fd) (m : Mount) → OnDescriptors (do_mount root m)
unfolding OnTarget do_mount
do_mount-OnDescriptors root m =
    search (only_rules, do_bind_mount-OnDescriptors, do_plain_mount-OnDescriptors)

mount-OnDescriptors :
    (root : Fd) (m : Mount) (remounts : Remounts) → OnDescriptors (mount root m remounts)
unfolding OnTarget mount
mount-OnDescriptors root m remounts = search (only_rules, do_mount-OnDescriptors)

mount_all-OnDescriptors :
    (root : Fd) (ms : List Mount) (remounts : Remounts) → OnDescriptors (mount_all root ms remounts)
unfolding OnTarget mount_all
mount_all-OnDescriptors root [] remounts = search only_rules
mount_all-OnDescriptors root (m ∷ ms) remounts =
    Only-bind _ _ (mount-OnDescriptors root m remounts)
      λ after. mount_all-OnDescriptors root ms after

file_system_at-OnDescriptors :
    (root : Fd) (name : String) → OnDescriptors (file_system_at root name)
unfolding OnTarget file_system_at
file_system_at-OnDescriptors root name = search only_calls

directory_is_empty-OnDescriptors : (path : String) → OnDescriptors (directory_is_empty path)
unfolding OnTarget directory_is_empty
directory_is_empty-OnDescriptors path = search only_rules

module _ (unset : Unset) (root : Fd) where
  configure_proc-OnDescriptors : (r : Remounts) → OnDescriptors (configure_proc unset root r)
  unfolding OnTarget configure_proc
  configure_proc-OnDescriptors r =
      search (only_rules, file_system_at-OnDescriptors, mount-OnDescriptors)

  configure_sys-OnDescriptors : (r : Remounts) → OnDescriptors (configure_sys unset root r)
  unfolding OnTarget configure_sys
  configure_sys-OnDescriptors r =
      search (only_rules, file_system_at-OnDescriptors, mount-OnDescriptors) depth 8

  configure_dev-OnDescriptors : (r : Remounts) → OnDescriptors (configure_dev unset root r)
  unfolding OnTarget configure_dev
  configure_dev-OnDescriptors r =
      search
        (
          only_rules, file_system_at-OnDescriptors, directory_is_empty-OnDescriptors,
          mount-OnDescriptors,
        )
        depth 8

  mount_if_missing-OnDescriptors :
      (name : String) (m : Mount) (r : Remounts)
      → OnDescriptors (mount_if_missing unset root name m r)
  unfolding OnTarget mount_if_missing
  mount_if_missing-OnDescriptors name m r = search (only_calls, mount-OnDescriptors) depth 8

  configure_default_filesystems-OnDescriptors :
      (r : Remounts) → OnDescriptors (configure_default_filesystems unset root r)
  unfolding OnTarget configure_default_filesystems
  configure_default_filesystems-OnDescriptors r =
      search
        (
          only_rules, configure_proc-OnDescriptors, configure_sys-OnDescriptors,
          configure_dev-OnDescriptors, mount_if_missing-OnDescriptors,
        )
        depth 8

  try_open-OnDescriptors : (path : String) → OnDescriptors (try_open unset root path)
  unfolding OnTarget try_open
  try_open-OnDescriptors path = search only_calls depth 8

  make_if_missing-OnDescriptors :
      (found : Option Fd) (path : String) (mode dev : ℕ)
      → OnDescriptors (make_if_missing unset root found path mode dev)
  unfolding OnTarget make_if_missing
  make_if_missing-OnDescriptors none path mode dev = search only_calls
  make_if_missing-OnDescriptors (some fd) path mode dev = search only_calls

  configure_device-OnDescriptors :
      (destination : String) (mode dev : ℕ) (r : Remounts)
      → OnDescriptors (configure_device unset root destination mode dev r)
  unfolding OnTarget configure_device
  configure_device-OnDescriptors destination mode dev r =
      search
        (only_calls, try_open-OnDescriptors, make_if_missing-OnDescriptors, mount-OnDescriptors)
        depth 8

  configure_default_devices-OnDescriptors :
      (r : Remounts) → OnDescriptors (configure_default_devices unset root r)
  unfolding OnTarget configure_default_devices
  configure_default_devices-OnDescriptors r =
      search (Only-bind, configure_device-OnDescriptors) depth 8

  finalize-OnDescriptors : (r : Remounts) → OnDescriptors (finalize unset root r)
  unfolding OnTarget finalize
  finalize-OnDescriptors r = search (
    only_rules, configure_default_filesystems-OnDescriptors,
    configure_default_devices-OnDescriptors, do_delay_readonly_mount-OnDescriptors,
  )

configure_mounts-OnDescriptors :
    (unset : Unset) (c : Container) → OnDescriptors (configure_mounts unset c)
unfolding OnTarget configure_mounts
configure_mounts-OnDescriptors unset c =
    search (only_calls, mount_all-OnDescriptors, finalize-OnDescriptors) depth 8

-- Whatever the system answers, every mount that setting up the container's mounts makes is made on
-- the path of a descriptor, never on a path that is looked up in the container. The path can be that
-- of the descriptor -1.
pub configure_mounts-targets :
    (unset : Unset) (c : Container) (K : Kernel)
    → All IsOnDescriptor (run K [] (configure_mounts unset c)).1
configure_mounts-targets unset c K = (configure_mounts-OnDescriptors unset c).at K [] tt
