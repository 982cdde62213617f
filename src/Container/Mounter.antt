-- ===== src/Container/Mounter.antt =====
-- src/linyaps_box/container.cpp: class mounter, and configure_mounts.
use linglong_box.Prelude.{
  ℕ, ◌+◌, ◌*◌, ◌/◌, ◌^◌, String, Bool, Option, none, some, List, [], ◌∷◌, ◌++◌, bit_and, bit_or,
  ◌&&◌, is_empty, ◌==◌, if◌then◌else◌, not,
}
use linglong_box.Config.{Mount}
use linglong_box.Kernel.{Fd, Stat, statfs, proc_path}
use linglong_box.Program.{Program, ret, sys, ◌>>=◌, ◌>>◌, catch, on_errno, for_each}
use linglong_box.Linux.Ms
use linglong_box.Linux.Open
use linglong_box.Linux.Errno
use linglong_box.Linux.Magic
use linglong_box.Utils.Files.{open_file, open_at, mknod, lstat}
use linglong_box.Utils.Paths.{relative_path}
use linglong_box.Container.Defs.{Container}
use linglong_box.Container.Mounts.{
  DelayedMount, do_mount, do_delay_readonly_mount, directory_is_empty,
}

-- What the members `flags` and `propagation_flags` of a `mount_t` hold before they are set.
pub record Unset : Type 0 where
  pub flags : ℕ
  pub propagation_flags : ℕ
  pub empty_fd : Fd  -- the storage of an empty optional, as a descriptor

-- The state of a `mounter`; its member `root` is the argument `root` of the functions.
abbrev pub Remounts : Type 0
Remounts = List DelayedMount

unfoldable pub remember : Remounts → Option DelayedMount → Remounts
remember remounts none = remounts
remember remounts (some d) = remounts ++ d ∷ []

-- `mounter::mount`
unfoldable pub mount : Fd → Mount → Remounts → Program Remounts
mount root m remounts = do delayed ← do_mount root m; ret (remember remounts delayed)

unfoldable pub mount_all : Fd → List Mount → Remounts → Program Remounts
mount_all root [] remounts = ret remounts
mount_all root (m ∷ ms) remounts = do after ← mount root m remounts; mount_all root ms after

-- A `mount_t` with these members set; the flags are those of `unset` where they are not given.
abbrev pub new_mount : Unset → String → String → String → String → Mount
new_mount unset source destination type text = record {
  source = some source;
  destination = some destination;
  type = type;
  flags = unset.flags;
  propagation_flags = unset.propagation_flags;
  text = text;
}

abbrev pub nosuid_noexec_nodev : ℕ
nosuid_noexec_nodev = bit_or (bit_or Ms.nosuid Ms.noexec) Ms.nodev

abbrev pub bind_rec_restricted : ℕ
bind_rec_restricted = bit_or (bit_or Ms.bind Ms.recursive) nosuid_noexec_nodev

-- `utils::open(root, name)` and `statfs`; O_RDONLY is 0.
unfoldable pub file_system_at : Fd → String → Program (Fd × ℕ)
file_system_at root name = do
  fd ← open_at root name 0
  kind ← sys (statfs (proc_path fd)) "statfs"
  ret (fd, kind)

module _ (unset : Unset) (root : Fd) where
  unfoldable pub configure_proc : Remounts → Program Remounts
  configure_proc remounts = do
    found ← file_system_at root "proc"
    if found.1 == Magic.proc_super
        then ret remounts
        else mount root (new_mount unset "proc" "/proc" "proc" "") remounts

  unfoldable pub configure_sys : Remounts → Program Remounts
  configure_sys remounts = do
    found ← file_system_at root "sys"
    if found.1 == Magic.sysfs
        then ret remounts
        else catch
            (mount root
              (record (new_mount unset "sysfs" "/sys" "sysfs" "") { flags = nosuid_noexec_nodev })
              remounts)
            (on_errno Errno.eperm (
              mount root
                (record (new_mount unset "/sys" "/sys" "bind" "") { flags = bind_rec_restricted })
                remounts))

  abbrev pub dev_mount : Mount
  dev_mount = record (new_mount unset "tmpfs" "/dev" "tmpfs" "mode=755,size=65536k") {
    flags = bit_or (bit_or Ms.nosuid Ms.strictatime) Ms.nodev;
  }

  unfoldable pub configure_dev : Remounts → Program Remounts
  configure_dev remounts = do
    found ← file_system_at root "dev"
    if found.1 == Magic.tmpfs then ret remounts else do
      empty ← directory_is_empty (proc_path found.0)
      if not empty then ret remounts else mount root dev_mount remounts

  -- A block that mounts only if the name cannot be opened because it does not exist.
  unfoldable pub mount_if_missing : String → Mount → Remounts → Program Remounts
  mount_if_missing name m remounts =
      catch (do fd ← open_at root name 0; ret remounts)
        (on_errno Errno.enoent (mount root m remounts))

  abbrev pub pts_mount : Mount
  pts_mount =
      record (new_mount unset "devpts" "/dev/pts" "devpts" "newinstance,ptmxmode=0666,mode=0620") {
        flags = bit_or Ms.nosuid Ms.noexec;
      }

  abbrev pub shm_mount : Mount
  shm_mount = record (new_mount unset "shm" "/dev/shm" "tmpfs" "mode=1777,size=65536k") {
    flags = nosuid_noexec_nodev;
  }

  unfoldable pub configure_default_filesystems : Remounts → Program Remounts
  configure_default_filesystems remounts = do
    after_proc ← configure_proc remounts
    after_sys ← configure_sys after_proc
    after_dev ← configure_dev after_sys
    after_pts ← mount_if_missing "dev/pts" pts_mount after_dev
    mount_if_missing "dev/shm" shm_mount after_pts

  -- `open`, with ENOENT as an empty optional.
  unfoldable pub try_open : String → Program (Option Fd)
  try_open path =
      catch (do fd ← open_at root path Open.path; ret (some fd)) (on_errno Errno.enoent (ret none))

  -- `if (!destination_fd.has_value()) try { mknod(…); } catch …`
  unfoldable pub make_if_missing : Option Fd → String → ℕ → ℕ → Program Unit
  make_if_missing (some fd) path mode dev = ret tt
  make_if_missing none path mode dev =
      catch (mknod root path mode dev) (on_errno Errno.eperm (ret tt))

  -- `*destination_fd`: nothing is checked, and control goes on with whatever the storage holds.
  unfoldable pub dereference : Option Fd → Fd
  dereference none = unset.empty_fd
  dereference (some fd) = fd

  abbrev pub major : ℕ → ℕ
  major dev = bit_or (bit_and (dev / 2 ^ 8) 0xfff) (bit_and (dev / 2 ^ 32) 0xfffff000)

  abbrev pub minor : ℕ → ℕ
  minor dev = bit_or (bit_and dev 0xff) (bit_and (dev / 2 ^ 12) 0xffffff00)

  abbrev pub is_null_device : Stat → Bool
  is_null_device s =
      bit_and s.st_mode Open.s_ifmt == Open.s_ifchr && major s.st_dev == 1 && minor s.st_dev == 3

  abbrev pub device_mount : String → Mount
  device_mount destination = record (new_mount unset destination destination "bind" "") {
    flags = bind_rec_restricted;
  }

  unfoldable pub configure_device : String → ℕ → ℕ → Remounts → Program Remounts
  configure_device destination mode dev remounts = do
    found ← try_open (relative_path destination)
    make_if_missing found (relative_path destination) mode dev
    stat ← lstat (dereference found)
    if is_null_device stat then ret remounts else mount root (device_mount destination) remounts

  -- `makedev`, for the small numbers that are used.
  abbrev pub makedev : ℕ → ℕ → ℕ
  makedev ma mi = ma * 2 ^ 8 + mi

  unfoldable pub configure_default_devices : Remounts → Program Remounts
  configure_default_devices r = do
    r₁ ← configure_device "/dev/null" 0o666 (makedev 1 3) r
    r₂ ← configure_device "/dev/zero" 0o666 (makedev 1 5) r₁
    r₃ ← configure_device "/dev/full" 0o666 (makedev 1 7) r₂
    r₄ ← configure_device "/dev/random" 0o666 (makedev 1 8) r₃
    r₅ ← configure_device "/dev/urandom" 0o666 (makedev 1 9) r₄
    configure_device "/dev/tty" 0o666 (makedev 5 0) r₅

  unfoldable pub finalize : Remounts → Program Unit
  finalize remounts = do
    after_filesystems ← configure_default_filesystems remounts
    after_devices ← configure_default_devices after_filesystems
    for_each do_delay_readonly_mount after_devices

unfoldable pub configure_mounts : Unset → Container → Program Unit
configure_mounts unset c = if is_empty c.config.mounts then ret tt else do
  bundle ← open_file c.bundle Open.path
  root ← open_at bundle c.config.root.path Open.path
  remounts ← mount_all root c.config.mounts []
  finalize unset root remounts
