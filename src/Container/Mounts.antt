-- ===== src/Container/Mounts.antt =====
-- src/linyaps_box/container.cpp: from system_call_mount to directory_is_empty.
use linglong_box.Prelude.{
  ℕ, suc, String, Bool, true, false, Option, none, some, List, [], ◌∷◌, bit_and, bit_or, not, ◌&&◌,
  str_eq, ltb, ◌==◌, if◌then◌else◌,
}
use linglong_box.Prelude.Bits.{has_any, complement}
use linglong_box.Config.{Mount}
use linglong_box.Kernel.{Fd, Stat, mount_at, opendir, proc_path}
use linglong_box.Program.{Program, ret, sys, ◌>>=◌, ◌>>◌, catch, on_errno}
use linglong_box.Linux.Ms
use linglong_box.Linux.Open
use linglong_box.Linux.Errno
use linglong_box.Utils.Descriptor.{move_from}
use linglong_box.Utils.Files.{open_file, open_at, mkdir, touch, lstat}
use linglong_box.Utils.Paths.{components, parent_components, filename}
use linglong_box.Container.Defs.{value}

-- The call at the end. What is logged before it is left out, and with it what looking at a descriptor for
-- the log may throw where the level is LOG_DEBUG.
unfoldable pub system_call_mount :
    Option String → String → Option String → ℕ → Option String → Program Unit
system_call_mount source target type flags text =
    sys (mount_at source target type flags text) "mount"

-- `delay_readonly_mount_t`
pub record DelayedMount : Type 0 where
  pub destination_fd : Fd
  pub flags : ℕ

unfoldable pub do_delay_readonly_mount : DelayedMount → Program Unit
do_delay_readonly_mount m = system_call_mount none (proc_path m.destination_fd) none m.flags none

unfoldable pub create_destination_file : Fd → String → Program Fd
create_destination_file root destination = do
  parent ← mkdir root (parent_components destination) 0o755
  touch parent (filename destination)

unfoldable pub create_destination_directory : Fd → String → Program Fd
create_destination_directory root destination = mkdir root (components destination) 0o755

abbrev pub create_destination : Bool → Fd → String → Program Fd
create_destination true root destination = create_destination_file root destination
create_destination false root destination = create_destination_directory root destination

-- `if (mount.flags | MS_NOSYMFOLLOW)`
unfoldable pub destination_open_flag : ℕ → ℕ
destination_open_flag flags =
    if not (bit_or flags Ms.nosymfollow == 0) then bit_or Open.path Open.nofollow else Open.path

-- `ensure_mount_destination<file>`
unfoldable pub ensure_mount_destination : Bool → Fd → Mount → Program Fd
ensure_mount_destination file root m = do
  destination ← value m.destination
  catch (open_at root destination (destination_open_flag m.flags))
      (on_errno Errno.enoent (create_destination file root destination))

unfoldable pub do_propagation_mount : Fd → ℕ → Program Unit
do_propagation_mount destination flags =
    if flags == 0 then ret tt else system_call_mount none (proc_path destination) none flags none

abbrev pub is_directory : Stat → Bool
is_directory s = bit_and s.st_mode Open.s_ifmt == Open.s_ifdir

-- `if (mount.flags & MS_NOSYMFOLLOW)`
abbrev pub source_open_flag : ℕ → ℕ
source_open_flag flags =
    if has_any flags Ms.nosymfollow then bit_or Open.path Open.nofollow else Open.path

unfoldable pub do_bind_mount : Fd → Mount → Program Unit
do_bind_mount root m = do
  source ← value m.source
  source_fd ← open_file source (source_open_flag m.flags)
  source_stat ← lstat source_fd
  first_fd ← ensure_mount_destination (not (is_directory source_stat)) root m
  system_call_mount (some (proc_path source_fd)) (proc_path first_fd) none
      (bit_and m.flags (bit_or Ms.bind Ms.recursive)) none
  destination_fd ← ensure_mount_destination (not (is_directory source_stat)) root m
  system_call_mount none (proc_path destination_fd) none (bit_or m.flags Ms.remount) none
  do_propagation_mount destination_fd m.propagation_flags

-- `mount.type == "tmpfs" && mount.flags & MS_RDONLY`
abbrev pub is_readonly_tmpfs : Mount → Bool
is_readonly_tmpfs m = str_eq m.type "tmpfs" && has_any m.flags Ms.rdonly

-- The descriptor that the mount goes on with, the flags that it takes, and what is delayed. Moving
-- the descriptor into the delayed mount leaves -1 behind.
unfoldable pub delay_readonly : Mount → Fd → Fd × ℕ × Option DelayedMount
delay_readonly m fd =
    if is_readonly_tmpfs m
    then (let (moved, rest) = move_from fd in
        (
          rest,
          bit_and m.flags (complement 64 Ms.rdonly),
          some (record {
            destination_fd = moved;
            flags = bit_or (bit_or (bit_or m.flags Ms.rdonly) Ms.remount) Ms.bind;
          }),
        ))
    else (fd, m.flags, none)

-- `do_mount` behind the test for a bind mount.
unfoldable pub do_plain_mount : Fd → Mount → Program (Option DelayedMount)
do_plain_mount root m = do
  opened_fd ← ensure_mount_destination false root m
  let (destination_fd, mount_flags, delayed) = delay_readonly m opened_fd
  source ← value m.source
  system_call_mount (some source) (proc_path destination_fd) (some m.type) mount_flags (some m.text)
  do_propagation_mount destination_fd m.propagation_flags
  ret delayed

unfoldable pub do_mount : Fd → Mount → Program (Option DelayedMount)
do_mount root m =
    if has_any m.flags Ms.bind then (do_bind_mount root m >> ret none) else do_plain_mount root m

-- The loop over `readdir` stops at the third entry.
unfoldable pub count_entries : List String → ℕ → ℕ
count_entries [] n = n
count_entries (e ∷ entries) n =
    let rest = count_entries entries (suc n) in if ltb 2 (suc n) then suc n else rest

unfoldable pub directory_is_empty : String → Program Bool
directory_is_empty path = do
  entries ← sys (opendir path) "opendir"
  ret (not (ltb 2 (count_entries entries 0)))
