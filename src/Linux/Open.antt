-- ===== src/Linux/Open.antt =====
-- The flags of <fcntl.h> for open, and the file types of <sys/stat.h>.
use Prim.Native.Nat.{ℕ}

abbrev pub wronly : ℕ
wronly = 1

abbrev pub creat : ℕ
creat = 0x40

abbrev pub rdwr : ℕ
rdwr = 2

abbrev pub excl : ℕ
excl = 0x80

abbrev pub noctty : ℕ
noctty = 0x100

abbrev pub trunc : ℕ
trunc = 0x200

abbrev pub append : ℕ
append = 0x400

-- O_NDELAY is the same.
abbrev pub nonblock : ℕ
nonblock = 0x800

abbrev pub dsync : ℕ
dsync = 0x1000

abbrev pub sync : ℕ
sync = 0x101000

abbrev pub async : ℕ
async = 0x2000

abbrev pub direct : ℕ
direct = 0x4000

-- The value that the C library has for programs of 64 bits.
abbrev pub largefile : ℕ
largefile = 0

abbrev pub noatime : ℕ
noatime = 0x40000

abbrev pub tmpfile : ℕ
tmpfile = 0x410000

abbrev pub directory : ℕ
directory = 0x10000

abbrev pub nofollow : ℕ
nofollow = 0x20000

abbrev pub cloexec : ℕ
cloexec = 0x80000

abbrev pub path : ℕ
path = 0x200000

abbrev pub s_ifmt : ℕ
s_ifmt = 0xf000

abbrev pub s_ifdir : ℕ
s_ifdir = 0x4000

abbrev pub s_ifchr : ℕ
s_ifchr = 0x2000
