-- ===== src/Linux/Ms.antt =====
-- The mount flags of <sys/mount.h>, and MNT_DETACH.
use Prim.Native.Nat.{ℕ}

abbrev pub rdonly : ℕ
rdonly = 1

abbrev pub nosuid : ℕ
nosuid = 2

abbrev pub nodev : ℕ
nodev = 4

abbrev pub noexec : ℕ
noexec = 8

abbrev pub synchronous : ℕ
synchronous = 16

abbrev pub remount : ℕ
remount = 32

abbrev pub mandlock : ℕ
mandlock = 64

abbrev pub dirsync : ℕ
dirsync = 128

abbrev pub nosymfollow : ℕ
nosymfollow = 256

abbrev pub noatime : ℕ
noatime = 1024

abbrev pub nodiratime : ℕ
nodiratime = 2048

abbrev pub bind : ℕ
bind = 4096

abbrev pub move : ℕ
move = 8192

abbrev pub recursive : ℕ
recursive = 16384

abbrev pub silent : ℕ
silent = 32768

abbrev pub posixacl : ℕ
posixacl = 65536

abbrev pub unbindable : ℕ
unbindable = 131072

abbrev pub private_mount : ℕ
private_mount = 262144

abbrev pub slave : ℕ
slave = 524288

abbrev pub shared : ℕ
shared = 1048576

abbrev pub relatime : ℕ
relatime = 2097152

abbrev pub kernmount : ℕ
kernmount = 4194304

abbrev pub i_version : ℕ
i_version = 8388608

abbrev pub strictatime : ℕ
strictatime = 16777216

abbrev pub lazytime : ℕ
lazytime = 33554432

abbrev pub active : ℕ
active = 1073741824

abbrev pub nouser : ℕ
nouser = 2147483648

abbrev pub mnt_detach : ℕ
mnt_detach = 2
