-- ===== src/Utils/Files.antt =====
-- src/linyaps_box/utils: open_file.cpp, mkdir.cpp, mknod.cpp, touch.cpp, fstat.h, atomic_write.cpp.
use Prim.Native.Char.{code}
use linglong_box.Prelude.{ℕ, String, ◌<>◌, some, List, [], ◌∷◌, bit_or, ◌==◌, if◌then◌else◌}
use linglong_box.Result.{system_error, runtime_error}
use linglong_box.Kernel.{
  Fd, Stat, open_path, openat, dup, mkdirat, mknodat, lstatat, write_file, rename_file, Outcome,
  done, failed,
}
use linglong_box.Program.{Program, ret, throw, call, sys, ◌>>=◌, ◌>>◌}
use linglong_box.Linux.Errno
use linglong_box.Linux.Open

unfoldable pub open_file : String → ℕ → Program Fd
open_file path flag = do fd ← sys (open_path path flag) "open"; ret (some fd)

-- `path.c_str() + (path.is_absolute() ? 1 : 0)`
unfoldable pub strip_root : String → String
strip_root String.[] = ""
strip_root (String.◌∷◌ c s) = if code c == b'/' then s else String.◌∷◌ c s

unfoldable pub open_at : Fd → String → ℕ → Program Fd
open_at root path flag = do fd ← sys (openat root (strip_root path) flag) "openat"; ret (some fd)

-- `if (mkdirat(…)) { if (errno != EEXIST) throw … }`
unfoldable pub made_or_there : Outcome Unit → Program Unit
made_or_there (done _) = ret tt
made_or_there (failed e) = if e == Errno.eexist then ret tt else throw (system_error e "mkdirat")

-- The loop of `mkdir` over the components of the path.
unfoldable pub mkdir_parts : Fd → List String → ℕ → Program Fd
mkdir_parts current [] mode = ret current
mkdir_parts current (part ∷ parts) mode = do
  r ← call (mkdirat current part mode) ret
  made_or_there r
  fd ← sys (openat current part Open.path) "openat"
  mkdir_parts (some fd) parts mode

unfoldable pub mkdir : Fd → List String → ℕ → Program Fd
mkdir root parts mode = do fd ← sys (dup root) "dup"; mkdir_parts (some fd) parts mode

unfoldable pub mknod : Fd → String → ℕ → ℕ → Program Unit
mknod root path mode dev = sys (mknodat root path mode dev) "mknodat"

unfoldable pub touch : Fd → String → Program Fd
touch root path = do
  fd ← sys (openat root path (bit_or Open.creat Open.wronly)) "openat"
  ret (some fd)

unfoldable pub lstat : Fd → Program Stat
lstat fd = sys (lstatat fd) "fstatat"

abbrev pub opened : Outcome Unit → Program Unit
opened (done _) = ret tt
opened (failed e) = throw (runtime_error "failed to open temporary file")

-- The write of the temporary file is one call; a failure to open it is the failure of that call.
unfoldable pub atomic_write : String → String → Program Unit
atomic_write path content = do
  r ← call (write_file (path <> ".tmp") content) ret
  opened r
  sys (rename_file (path <> ".tmp") path) "rename"
