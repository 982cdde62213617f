-- ===== src/Container/Lifecycle.antt =====
-- src/linyaps_box/container.cpp: clone_fn, start_container_process, wait_socket_close, the constructor
-- of container and its member run.
use linglong_box.Prelude.{
  ℕ, ◌+◌, ◌-◌, ◌^◌, Bool, true, bit_or, String, none, some, [], ◌∷◌, ◌==◌, if◌then◌else◌,
}
use linglong_box.Config.{Config, Process}
use linglong_box.Kernel.{
  Fd, trace_requested, wait_for_signal, clone, mmap, munmap, print, getpid, getuid, read_file,
  Outcome, done, failed,
}
use linglong_box.Program.{
  Program, ret, throw, call, sys, of_result, ◌>>=◌, ◌>>◌, catch, on_throw, scoped,
}
use linglong_box.Result.{Error, Result, runtime_error, logic_error, file_descriptor_closed}
use linglong_box.Status.{StatusDirectory, creating, created}
use linglong_box.Utils.Descriptor.{receive, destroy}
use linglong_box.Utils.SocketPair.{open_pair}
use linglong_box.Container.Defs.{Container}
use linglong_box.Container.CloneFlag.{generate_clone_flag}
use linglong_box.Container.Descriptors.{close_other_fds}
use linglong_box.Container.Mounter.{Unset, configure_mounts}
use linglong_box.Container.UserNamespace.{
  request_container_namespaces, configure_container_namespaces,
}
use linglong_box.Container.Hooks.{
  wait_create_runtime_result, create_container_hooks, start_container_hooks, prestart_hooks,
  create_runtime_hooks, wait_create_container_result, poststart_hooks, poststop_hooks,
}
use linglong_box.Container.Process.{execute_process, do_pivot_root}
use linglong_box.Container.Waiting.{wait_container_process}

-- The number of the socket in the child; it is not -1.
abbrev pub fd_number : Fd → ℕ
fd_number none = 0
fd_number (some n) = n

unfoldable pub wait_for_tracer : Program Unit
wait_for_tracer = do
  requested ← sys trace_requested "getenv"
  if requested then sys wait_for_signal "signal" else ret tt

-- The body of `clone_fn`. `unset` is what unset members of a mount hold, `retries` and `layers` bound
-- the loops.
unfoldable pub clone_body : ℕ → ℕ → Unset → Container → Process → Fd → Program Unit
clone_body retries layers unset c process socket = do
  wait_for_tracer
  close_other_fds (0 ∷ 1 ∷ 2 ∷ fd_number socket ∷ [])
  request_container_namespaces retries socket
  configure_mounts unset c
  wait_create_runtime_result retries c socket
  create_container_hooks retries c socket
  do_pivot_root layers c
  start_container_hooks retries c socket
  execute_process process

-- `clone_fn`: it prints what was thrown and returns -1.
unfoldable pub clone_fn : ℕ → ℕ → Unset → Container → Process → Fd → Program Unit
clone_fn retries layers unset c process socket =
    catch (clone_body retries layers unset c process socket) λ e. call (print "error") λ _. ret tt

abbrev pub cloned : Outcome ℕ → Program ℕ
cloned (failed e) = throw (runtime_error "clone failed")
cloned (done pid) =
    if pid == 0 then throw (logic_error "clone should not return in child") else ret pid

-- The macros LINYAPS_BOX_CLONE_CHILD_STACK_SIZE and LINYAPS_BOX_STACK_GROWTH_DOWN, as the build sets
-- them.
abbrev pub stack_size : ℕ
stack_size = 2 ^ 20

abbrev pub stack_growth_down : Bool
stack_growth_down = true

abbrev pub mapped : Outcome ℕ → Program ℕ
mapped (done low) = ret low
mapped (failed e) = throw (runtime_error "mmap child stack failed")

-- The constructor of `child_stack`; what it gives is `stack_low`.
unfoldable pub child_stack : Program ℕ
child_stack = do r ← call (mmap stack_size) ret; mapped r

-- `child_stack::top`, for a stack in the given direction.
unfoldable pub stack_top : Bool → ℕ → ℕ
stack_top growth_down low = if growth_down then low + stack_size else low - stack_size

abbrev pub unmapped : Outcome Unit → Program Unit
unmapped (done _) = ret tt
unmapped (failed e) = call (print "munmap") λ _. ret tt

-- `~child_stack`, where its assertion is not compiled in.
unfoldable pub destroy_child_stack : ℕ → Program Unit
destroy_child_stack low = do r ← call (munmap low stack_size) ret; unmapped r

-- AF_UNIX, and SOCK_SEQPACKET with SOCK_CLOEXEC.
abbrev af_unix : ℕ
af_unix = 1

abbrev seqpacket_cloexec : ℕ
seqpacket_cloexec = bit_or 5 0x80000

-- The pid of the child, and the end of the socket pair that stays here. When the function is left the
-- stack is destroyed and the other end closed; the end that stays is closed if an exception leaves it.
unfoldable pub start_container_process : Container → Program (ℕ × Fd)
start_container_process c = do
  sockets ← open_pair af_unix seqpacket_cloexec 0
  on_throw (destroy sockets.0) (
      scoped (destroy sockets.1) (do
        flag ← of_result (generate_clone_flag c.config.namespaces)
        stack_low ← child_stack
        scoped (destroy_child_stack stack_low) (do
          r ← call (clone flag (stack_top stack_growth_down stack_low)) ret
          child_pid ← cloned r
          ret (child_pid, sockets.0))))

abbrev pub closed_is_fine : Error → Program Unit
closed_is_fine file_descriptor_closed = ret tt
closed_is_fine e = throw e

-- One byte is awaited; both a byte and the end of the stream end the wait.
unfoldable pub wait_socket_close : ℕ → Fd → Program Unit
wait_socket_close retries socket = catch (receive retries socket >>= λ _. ret tt) closed_is_fine

-- The constructor. A file that cannot be opened reads as an empty stream.
unfoldable pub construct :
    (String → Result Config) → StatusDirectory → String → String → String → Program Container
construct parse status_dir id bundle config_path = do
  r ← call (read_file config_path) ret
  let text : String = elim r [ done t ↦ t | failed _ ↦ "" ]
  config ← of_result (parse text)
  pid ← sys getpid "getpid"
  owner ← sys getuid "getuid"
  status_dir.write (record {
    id = id;
    pid = pid;
    status = creating;
    bundle = bundle;
    created_at = "";
    owner = owner;
    annotations = [];
  })
  ret (record { id = id; status_dir = status_dir; bundle = bundle; config = config })

-- What `run` does once the process of the container has been started.
abbrev pub run_started : ℕ → Container → ℕ → Fd → Program ℕ
run_started retries c child_pid socket = do
  first ← c.status_dir.read c.id
  c.status_dir.write (record first { pid = child_pid; status = created })
  configure_container_namespaces retries c socket
  prestart_hooks retries c
  create_runtime_hooks retries c socket
  wait_create_container_result retries c socket
  wait_socket_close retries socket
  poststart_hooks retries c
  waited ← c.status_dir.read c.id
  exit_code ← wait_container_process retries waited.pid
  last ← c.status_dir.read c.id
  c.status_dir.write (record last { pid = child_pid })
  poststop_hooks retries c
  c.status_dir.remove c.id
  ret exit_code

unfoldable pub run_container : ℕ → Container → Program ℕ
run_container retries c = do
  started ← start_container_process c
  scoped (destroy started.1) (run_started retries c started.0 started.1)
