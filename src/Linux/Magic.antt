-- ===== src/Linux/Magic.antt =====
-- The file system types of <linux/magic.h>.
use Prim.Native.Nat.{ℕ}

abbrev pub proc_super : ℕ
proc_super = 0x9fa0

abbrev pub sysfs : ℕ
sysfs = 0x62656572

abbrev pub tmpfs : ℕ
tmpfs = 0x01021994
