-- ===== src/Kernel.antt =====
-- The calls that the program makes of the operating system, and what they can answer. What an answer
-- is rests with the environment: a program is run against any function that answers every call,
-- given all calls before it.
pub mod AllSucceed
use linglong_box.Prelude.{ℕ, String, ◌<>◌, Bool, Option, none, some, List}
use linglong_box.Prelude.Decimal.{to_string}

-- The `int` in a `file_descriptor`; `none` is -1.
abbrev pub Fd : Type 0
Fd = Option ℕ

pub record Stat : Type 0 where
  pub st_mode : ℕ
  pub st_dev : ℕ

-- An array of pointers to texts, as `execvpe` takes it; `none` is the null pointer.
abbrev pub Pointers : Type 0
Pointers = List (Option String)

-- `fork_execute` is a `fork` whose child does nothing but execute the given file; `opendir` is a
-- pass of `readdir` over a directory, with `.` and `..`; `trace_requested` is the test of the
-- variable LINYAPS_BOX_CONTAINER_PROCESS_TRACE_ME, and `wait_for_signal` what follows it. `mmap` maps
-- fresh memory for a stack, of the given size.
pub data Call : Type 0 where
  open_path : String → ℕ → Call
  openat : Fd → String → ℕ → Call
  dup : Fd → Call
  mkdirat : Fd → String → ℕ → Call
  mknodat : Fd → String → ℕ → ℕ → Call
  lstatat : Fd → Call
  statfs : String → Call
  opendir : String → Call
  list_directory : String → Call
  mount_at : Option String → String → Option String → ℕ → Option String → Call
  umount2 : String → ℕ → Call
  pivot_root : String → String → Call
  chdir : String → Call
  fchdir : Fd → Call
  setgid : ℕ → Call
  setgroups : List ℕ → Call
  setuid : ℕ → Call
  execute : Pointers → Option Pointers → Call
  fork_execute : Pointers → Option Pointers → Call
  waitpid : ℕ → Call
  write_byte : Fd → ℕ → Call
  read_byte : Fd → Call
  close_range : ℕ → ℕ → Call
  socketpair : Call
  clone : ℕ → ℕ → Call
  getpid : Call
  getuid : Call
  trace_requested : Call
  wait_for_signal : Call
  kill : ℕ → ℕ → Call
  is_directory : String → Call
  create_directories : String → Call
  read_file : String → Call
  write_file : String → String → Call
  rename_file : String → String → Call
  remove_file : String → Call
  print : String → Call
  close : ℕ → Call
  mmap : ℕ → Call
  munmap : ℕ → ℕ → Call
  read_link : String → Call
  get_env : String → Call
  geteuid : Call
  gettimeofday : Call
  syslog : ℕ → String → Call

-- What a call that succeeds gives: its value or what it stores through a pointer.
abbrev pub Value : Call → Type 0
Value (open_path _ _) = ℕ
Value (openat _ _ _) = ℕ
Value (dup _) = ℕ
Value (lstatat _) = Stat
Value (statfs _) = ℕ
Value (opendir _) = List String
Value (list_directory _) = List (String × Bool)
Value (fork_execute _ _) = ℕ
Value (waitpid _) = ℕ
Value (write_byte _ _) = ℕ
Value (read_byte _) = Option ℕ
Value socketpair = ℕ × ℕ
Value (clone _ _) = ℕ
Value getpid = ℕ
Value getuid = ℕ
Value trace_requested = Bool
Value (is_directory _) = Bool
Value (create_directories _) = Bool
Value (read_file _) = String
Value (mmap _) = ℕ
Value (read_link _) = String
Value (get_env _) = Option String
Value geteuid = ℕ
Value gettimeofday = ℕ × ℕ
Value _ = Unit

-- A call succeeds, or fails and sets `errno`.
pub data Outcome (A : Type 0) : Type 0 where
  done : A → Outcome A
  failed : ℕ → Outcome A

abbrev pub Reply : Call → Type 0
Reply c = Outcome (Value c)

abbrev pub Kernel : Type 0
Kernel = List Call → (c : Call) → Reply c

-- `proc_path`
unfoldable pub proc_path : Fd → String
proc_path none = "/proc/self/fd/-1"
proc_path (some n) = "/proc/self/fd/" <> to_string n
