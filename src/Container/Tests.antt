-- ===== src/Container/Tests.antt =====
-- A system in which every call succeeds, and examples of the laws about a container in it.
mod Calls
mod Talk
mod Tries
use linglong_box.Prelude.{
  true, ◌≡◌, refl, ℕ, zero, suc, ◌+◌, ◌≤◌, ◌<◌, false, Option, none, some, List, [], ◌∷◌, not, ◌&&◌,
  All, arith,
}
use linglong_box.Config.{Process, Hook, Namespace, pid, mount}
use linglong_box.Kernel.{Call, Reply, done, read_byte}
use linglong_box.Kernel.AllSucceed.{success}
use linglong_box.Program.{ret, run}
use linglong_box.Result.{ok}
use linglong_box.Json.Blank.{blank}
use linglong_box.Status.{Status, StatusDirectory, creating}
use linglong_box.StatusDirectory.{write, read, remove, list}
use linglong_box.Container.Order.Directory.{files-IsQuietDirectory}
use linglong_box.Program.Traces.{seen}
use linglong_box.Program.Traces.Quiet.{quiet_rules}
use linglong_box.Container.Defs.{Container}
use linglong_box.Container.CloneFlag.{check_duplicate, visit, add_namespaces, generate_clone_flag}
use linglong_box.Utils.SocketPair.{open_pair}
use linglong_box.Utils.Descriptor.{send, destroy, receive}
use linglong_box.Container.Sync.{send_message, expect_message}
use linglong_box.Container.Waiting.{wait_while, wait_container_process}
use linglong_box.Container.Hooks.{
  assignments, hook_args, hook_env, hook_result, execute_hook, prestart_hooks, create_runtime_hooks,
  wait_create_container_result, poststart_hooks, execute_and_report, poststop_hooks,
}
use linglong_box.Container.UserNamespace.{
  has_user_namespace, configure_mappings, configure_container_namespaces,
}
use linglong_box.Container.Lifecycle.{
  start_container_process, child_stack, destroy_child_stack, wait_socket_close, run_container,
  clone_fn,
}
use linglong_box.Container.Order.{event_of}
use linglong_box.Program.Resources.{held}
use linglong_box.Container.Resources.{remains, start_container_process-held}
use linglong_box.Container.ExitCode.{run_container-bounds}
use linglong_box.Container.Reported.{IsReported, run_container-IsReported}
use linglong_box.Container.Order.Runtime.{
  IsQuietDirectory, runtime_events, run_container-events, run_container-begins,
}
use linglong_box.Container.Order.Child.{container_events, clone_fn-begins}
use linglong_box.Program.Traces.Follows.{Begins}
use linglong_box.Linux.Clone
use linglong_box.Container.Mounter.{Unset}
use linglong_box.Container.CloneFlag.Laws.{fault, total, outcome, generate_clone_flag_lem}
use linglong_box.Container.Descriptors.{insert, insert_all, kept, ranges, max_uint, close_other_fds}
use linglong_box.Container.Descriptors.Laws.{member, isolated, closes, close_other_fds-closes}

abbrev next_byte : ℕ → Option ℕ
next_byte zero = some 0
next_byte (suc zero) = some 2
next_byte _ = none

-- The messages that the process of a container sends, one for each read so far, and then the end.
abbrev received : List Call → ℕ
received [] = 0
received (read_byte _ ∷ h) = 1 + received h
received (_ ∷ h) = received h

abbrev answer : List Call → (c : Call) → Reply c
answer h (read_byte fd) = done (next_byte (received h))
answer h c = done (success c)

abbrev hook : Hook
hook = record { path = "/usr/bin/hook"; args = "--now" ∷ []; env = ("A", "b") ∷ []; timeout = 0 }

abbrev process : Process
process = record {
  terminal = false;
  console = record { height = 0; width = 0 };
  cwd = "/";
  env = [];
  args = "/bin/true" ∷ [];
  no_new_privileges = false;
  oom_score_adj = none;
  uid = 1000;
  gid = 100;
  umask = none;
  additional_gids = none;
}

abbrev namespaces : List Namespace
namespaces = record { type = pid; path = "" } ∷ record { type = mount; path = "" } ∷ []

abbrev first_status : Status
first_status = record {
  id = "box";
  pid = 1;
  status = creating;
  bundle = "/bundle";
  created_at = "";
  owner = 0;
  annotations = [];
}

-- A directory that holds one status and forgets what is written.
abbrev fixed_directory : StatusDirectory
fixed_directory = record {
  write = λ s. ret tt;
  read = λ id. ret first_status;
  remove = λ id. ret tt;
  list = ret [];
}

abbrev files_directory : StatusDirectory
files_directory = record {
  write = write blank "/run/box";
  read = read blank "/run/box";
  remove = remove blank "/run/box";
  list = list blank "/run/box";
}

abbrev unset : Unset
unset = record { flags = 0; propagation_flags = 0; empty_fd = some 0 }

abbrev container : Container
container = record {
  id = "box";
  status_dir = fixed_directory;
  bundle = "/bundle";
  config = record {
    process = process;
    namespaces = namespaces;
    uid_mappings = [];
    gid_mappings = [];
    hooks = record {
      prestart = hook ∷ [];
      create_runtime = [];
      create_container = [];
      start_container = hook ∷ [];
      poststart = [];
      poststop = hook ∷ [];
    };
    mounts = [];
    root = record { path = "rootfs"; readonly = false };
  };
}

fixed_directory-IsQuietDirectory : IsQuietDirectory fixed_directory
fixed_directory-IsQuietDirectory = record {
  write = λ s. search quiet_rules;
  read = λ id. search quiet_rules;
  remove = λ id. search quiet_rules;
}

box_returns : (run answer [] (run_container 2 container)).0 ≡ ok 0
unfolding run_container start_container_process open_pair child_stack destroy_child_stack destroy
    generate_clone_flag add_namespaces visit check_duplicate configure_container_namespaces
    configure_mappings has_user_namespace expect_message send_message send receive prestart_hooks
    create_runtime_hooks execute_hook wait_while hook_result hook_args hook_env assignments
    wait_create_container_result wait_socket_close poststart_hooks wait_container_process
    poststop_hooks execute_and_report
box_returns = refl

run_container-events_example :
    seen event_of (run answer [] (run_container 2 container)).1
    ≡ runtime_events container.config.hooks
run_container-events_example =
    run_container-events 2 container answer fixed_directory-IsQuietDirectory 0 box_returns

run_container-bounds_example : 0 < 256
run_container-bounds_example = run_container-bounds 2 container answer 0 box_returns

run_container-IsReported_example :
    IsReported container answer (run answer [] (run_container 2 container)).1 0
run_container-IsReported_example = run_container-IsReported 2 container answer 0 box_returns

-- The container in a directory of files.
abbrev pub with_files : Container
with_files = record container { status_dir = files_directory }

run_container-begins_example :
    Begins
      (runtime_events container.config.hooks)
      (seen event_of (run answer [] (run_container 1 with_files)).1)
run_container-begins_example =
    run_container-begins 1 with_files answer (files-IsQuietDirectory blank "/run/box")

clone_fn-begins_example :
    Begins
      (container_events container.config.hooks process)
      (seen event_of (run answer [] (clone_fn 1 1 unset container process (some 6))).1)
clone_fn-begins_example = clone_fn-begins 1 1 unset container process (some 6) answer

generate_clone_flag_lem_example :
    generate_clone_flag namespaces
    ≡ outcome (fault [] namespaces) (Clone.sigchld + total namespaces)
generate_clone_flag_lem_example = generate_clone_flag_lem namespaces

descriptors : List ℕ
descriptors = 0 ∷ 1 ∷ 2 ∷ 6 ∷ []

closing : (run answer [] (close_other_fds descriptors)).0 ≡ ok tt
unfolding close_other_fds ranges kept insert insert_all descriptors
closing = refl

descriptors_fit : All (λ x. x ≤ max_uint) descriptors
unfolding descriptors
descriptors_fit = omega arith

close_other_fds-closes_example :
    closes 4 (run answer [] (close_other_fds descriptors)).1
    ≡ (not (member 4 (kept descriptors)) && not (isolated 4 (kept descriptors)))
close_other_fds-closes_example =
    close_other_fds-closes answer descriptors 4 descriptors_fit closing (omega arith) (omega arith)

start_container_process-held_example :
    held answer (run answer [] (start_container_process container)).1
    ≡ remains (held answer []) (run answer [] (start_container_process container)).0
start_container_process-held_example = start_container_process-held container answer []
