-- ===== src/Container/Ordinary/Mounts.antt =====
-- Setting the mounts up is ordinary.
use linglong_box.Prelude.{ℕ, String, Bool, true, false, Option, none, some, List, [], ◌∷◌}
use linglong_box.Config.{Mount}
use linglong_box.Kernel.{Fd}
use linglong_box.Program.Avoids.{avoids_rules, Avoids-bind}
use linglong_box.Container.Ordinary.{IsOrdinary}
use linglong_box.Container.Defs.{Container, value}
use linglong_box.Container.Mounts.{
  system_call_mount, DelayedMount, do_delay_readonly_mount, create_destination_file,
  create_destination_directory, create_destination, ensure_mount_destination, do_propagation_mount,
  do_bind_mount, do_plain_mount, do_mount, directory_is_empty,
}
use linglong_box.Container.Mounter.{
  Unset, Remounts, mount, mount_all, file_system_at, configure_proc, configure_sys, configure_dev,
  mount_if_missing, configure_default_filesystems, try_open, make_if_missing, configure_device,
  configure_default_devices, finalize, configure_mounts,
}
use linglong_box.Container.Ordinary.Files.{ordinary_calls}

value-IsOrdinary : {A : Type 0} (o : Option A) → IsOrdinary (value o)
value-IsOrdinary none = search avoids_rules
value-IsOrdinary (some a) = search avoids_rules

system_call_mount-IsOrdinary :
    (source : Option String) (target : String) (type : Option String) (flags : ℕ)
    (text : Option String)
    → IsOrdinary (system_call_mount source target type flags text)
unfolding system_call_mount
system_call_mount-IsOrdinary source target type flags text = search avoids_rules

do_delay_readonly_mount-IsOrdinary : (m : DelayedMount) → IsOrdinary (do_delay_readonly_mount m)
unfolding do_delay_readonly_mount
do_delay_readonly_mount-IsOrdinary m = search (avoids_rules, system_call_mount-IsOrdinary)

create_destination-IsOrdinary :
    (file : Bool) (root : Fd) (destination : String)
    → IsOrdinary (create_destination file root destination)
unfolding create_destination_file create_destination_directory
create_destination-IsOrdinary true root destination = search ordinary_calls
create_destination-IsOrdinary false root destination = search ordinary_calls

ensure_mount_destination-IsOrdinary :
    (file : Bool) (root : Fd) (m : Mount) → IsOrdinary (ensure_mount_destination file root m)
unfolding ensure_mount_destination
ensure_mount_destination-IsOrdinary file root m =
    search (ordinary_calls, value-IsOrdinary, create_destination-IsOrdinary)

do_propagation_mount-IsOrdinary : (fd : Fd) (flags : ℕ) → IsOrdinary (do_propagation_mount fd flags)
unfolding do_propagation_mount
do_propagation_mount-IsOrdinary fd flags = search (avoids_rules, system_call_mount-IsOrdinary)

ruleset mount_rules = (
  ordinary_calls, value-IsOrdinary, system_call_mount-IsOrdinary,
  ensure_mount_destination-IsOrdinary, do_propagation_mount-IsOrdinary,
)

do_bind_mount-IsOrdinary : (root : Fd) (m : Mount) → IsOrdinary (do_bind_mount root m)
unfolding do_bind_mount
do_bind_mount-IsOrdinary root m = search mount_rules depth 12

do_plain_mount-IsOrdinary : (root : Fd) (m : Mount) → IsOrdinary (do_plain_mount root m)
unfolding do_plain_mount
do_plain_mount-IsOrdinary root m = search mount_rules depth 12

do_mount-IsOrdinary : (root : Fd) (m : Mount) → IsOrdinary (do_mount root m)
unfolding do_mount
do_mount-IsOrdinary root m =
    search (avoids_rules, do_bind_mount-IsOrdinary, do_plain_mount-IsOrdinary)

mount-IsOrdinary :
    (root : Fd) (m : Mount) (remounts : Remounts) → IsOrdinary (mount root m remounts)
unfolding mount
mount-IsOrdinary root m remounts = search (avoids_rules, do_mount-IsOrdinary)

mount_all-IsOrdinary :
    (root : Fd) (ms : List Mount) (remounts : Remounts) → IsOrdinary (mount_all root ms remounts)
unfolding mount_all
mount_all-IsOrdinary root [] remounts = search avoids_rules
mount_all-IsOrdinary root (m ∷ ms) remounts =
    Avoids-bind _ _ (mount-IsOrdinary root m remounts) λ after. mount_all-IsOrdinary root ms after

file_system_at-IsOrdinary : (root : Fd) (name : String) → IsOrdinary (file_system_at root name)
unfolding file_system_at
file_system_at-IsOrdinary root name = search ordinary_calls

directory_is_empty-IsOrdinary : (path : String) → IsOrdinary (directory_is_empty path)
unfolding directory_is_empty
directory_is_empty-IsOrdinary path = search avoids_rules

module _ (unset : Unset) (root : Fd) where
  configure_proc-IsOrdinary : (r : Remounts) → IsOrdinary (configure_proc unset root r)
  unfolding configure_proc
  configure_proc-IsOrdinary r = search (avoids_rules, file_system_at-IsOrdinary, mount-IsOrdinary)

  configure_sys-IsOrdinary : (r : Remounts) → IsOrdinary (configure_sys unset root r)
  unfolding configure_sys
  configure_sys-IsOrdinary r =
      search (avoids_rules, file_system_at-IsOrdinary, mount-IsOrdinary) depth 8

  configure_dev-IsOrdinary : (r : Remounts) → IsOrdinary (configure_dev unset root r)
  unfolding configure_dev
  configure_dev-IsOrdinary r =
      search
        (avoids_rules, file_system_at-IsOrdinary, directory_is_empty-IsOrdinary, mount-IsOrdinary)
        depth 8

  mount_if_missing-IsOrdinary :
      (name : String) (m : Mount) (r : Remounts) → IsOrdinary (mount_if_missing unset root name m r)
  unfolding mount_if_missing
  mount_if_missing-IsOrdinary name m r = search (ordinary_calls, mount-IsOrdinary) depth 8

  configure_default_filesystems-IsOrdinary :
      (r : Remounts) → IsOrdinary (configure_default_filesystems unset root r)
  unfolding configure_default_filesystems
  configure_default_filesystems-IsOrdinary r =
      search
        (
          avoids_rules, configure_proc-IsOrdinary, configure_sys-IsOrdinary,
          configure_dev-IsOrdinary, mount_if_missing-IsOrdinary,
        )
        depth 8

  try_open-IsOrdinary : (path : String) → IsOrdinary (try_open unset root path)
  unfolding try_open
  try_open-IsOrdinary path = search ordinary_calls depth 8

  make_if_missing-IsOrdinary :
      (found : Option Fd) (path : String) (mode dev : ℕ)
      → IsOrdinary (make_if_missing unset root found path mode dev)
  unfolding make_if_missing
  make_if_missing-IsOrdinary none path mode dev = search ordinary_calls
  make_if_missing-IsOrdinary (some fd) path mode dev = search ordinary_calls

  configure_device-IsOrdinary :
      (destination : String) (mode dev : ℕ) (r : Remounts)
      → IsOrdinary (configure_device unset root destination mode dev r)
  unfolding configure_device
  configure_device-IsOrdinary destination mode dev r =
      search (ordinary_calls, try_open-IsOrdinary, make_if_missing-IsOrdinary, mount-IsOrdinary)
        depth 8

  configure_default_devices-IsOrdinary :
      (r : Remounts) → IsOrdinary (configure_default_devices unset root r)
  unfolding configure_default_devices
  configure_default_devices-IsOrdinary r = search (Avoids-bind, configure_device-IsOrdinary) depth 8

  finalize-IsOrdinary : (r : Remounts) → IsOrdinary (finalize unset root r)
  unfolding finalize
  finalize-IsOrdinary r = search (
    avoids_rules, configure_default_filesystems-IsOrdinary, configure_default_devices-IsOrdinary,
    do_delay_readonly_mount-IsOrdinary,
  )

pub configure_mounts-IsOrdinary :
    (unset : Unset) (c : Container) → IsOrdinary (configure_mounts unset c)
unfolding configure_mounts
configure_mounts-IsOrdinary unset c =
    search (ordinary_calls, mount_all-IsOrdinary, finalize-IsOrdinary) depth 8
