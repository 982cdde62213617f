-- ===== src/Kernel/AllSucceed.antt =====
-- A value for each call: what the examples take as the answers of a system in which every call
-- succeeds.
use linglong_box.Prelude.{true, false, none, []}
use linglong_box.Kernel.{
  Call, Value, open_path, openat, dup, mkdirat, mknodat, lstatat, statfs, opendir, list_directory,
  mount_at, umount2, pivot_root, chdir, fchdir, setgid, setgroups, setuid, execute, fork_execute,
  waitpid, write_byte, read_byte, close_range, socketpair, clone, getpid, getuid, trace_requested,
  wait_for_signal, kill, is_directory, create_directories, read_file, write_file, rename_file,
  remove_file, print, close, mmap, munmap, read_link, get_env, geteuid, gettimeofday, syslog,
}

abbrev pub success : (c : Call) → Value c
success (open_path _ _) = 0
success (openat _ _ _) = 0
success (dup _) = 0
success (mkdirat _ _ _) = tt
success (mknodat _ _ _ _) = tt
success (lstatat _) = record { st_mode = 0; st_dev = 0 }
success (statfs _) = 0
success (opendir _) = []
success (list_directory _) = []
success (mount_at _ _ _ _ _) = tt
success (umount2 _ _) = tt
success (pivot_root _ _) = tt
success (chdir _) = tt
success (fchdir _) = tt
success (setgid _) = tt
success (setgroups _) = tt
success (setuid _) = tt
success (execute _ _) = tt
success (fork_execute _ _) = 0
success (waitpid _) = 0
success (write_byte _ _) = 1
success (read_byte _) = none
success (close_range _ _) = tt
success socketpair = (5, 6)
success (clone _ _) = 7
success getpid = 0
success getuid = 0
success trace_requested = false
success wait_for_signal = tt
success (kill _ _) = tt
success (is_directory _) = true
success (create_directories _) = false
success (read_file _) = ""
success (write_file _ _) = tt
success (rename_file _ _) = tt
success (remove_file _) = tt
success (print _) = tt
success (close _) = tt
success (mmap _) = 0x7000
success (munmap _ _) = tt
success (read_link _) = "pid:[4026531836]"
success (get_env _) = none
success geteuid = 1000
success gettimeofday = (0, 0)
success (syslog _ _) = tt
