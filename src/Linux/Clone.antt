-- ===== src/Linux/Clone.antt =====
-- The clone flags of <sched.h>, and SIGCHLD.
use Prim.Native.Nat.{ℕ}

abbrev pub newns : ℕ
newns = 0x20000

abbrev pub newcgroup : ℕ
newcgroup = 0x2000000

abbrev pub newuts : ℕ
newuts = 0x4000000

abbrev pub newipc : ℕ
newipc = 0x8000000

abbrev pub newuser : ℕ
newuser = 0x10000000

abbrev pub newpid : ℕ
newpid = 0x20000000

abbrev pub newnet : ℕ
newnet = 0x40000000

abbrev pub sigchld : ℕ
sigchld = 17
