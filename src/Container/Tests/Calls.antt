-- ===== src/Container/Tests/Calls.antt =====
-- Examples of the laws about single functions of a container.
use linglong_box.Prelude.{◌≡◌, ◌≢◌, refl, All, some, [], ◌∷◌}
use linglong_box.Json.Plain.{plain}
use linglong_box.Config.{Mount, user}
use linglong_box.Kernel.{Kernel, read_file, done}
use linglong_box.Kernel.AllSucceed.{success}
use linglong_box.Container.OnDescriptors.{MountsOn}
use linglong_box.Container.ReadonlyTmpfs.{IsMinusOne, do_mount-IsMinusOne}
use linglong_box.Container.Mounts.{do_mount}
use linglong_box.Program.{run}
use linglong_box.Program.Traces.Follows.{Begins}
use linglong_box.Result.{ok}
use linglong_box.Status.{StatusDirectory}
use linglong_box.StatusDirectory.{write, read, remove, list, status_json}
use linglong_box.Container.Defs.{Container}
use linglong_box.Container.Hooks.{execute_hook}
use linglong_box.Container.Hooks.Laws.{execute_hook-once}
use linglong_box.Container.Mounter.{configure_mounts}
use linglong_box.Container.OnDescriptors.{IsOnDescriptor}
use linglong_box.Container.MountTargets.{configure_mounts-targets}
use linglong_box.Container.Process.{execute_process}
use linglong_box.Container.Process.Laws.{process_calls, execute_process-begins}
use linglong_box.Container.Tests.{answer, hook, process, container, unset, first_status}

execute_hook-once_example : execute_hook 5 hook ≡ execute_hook 1 hook
execute_hook-once_example = execute_hook-once 4 hook

execute_process-begins_example :
    Begins (process_calls process) (run answer [] (execute_process process)).1
    × ((run answer [] (execute_process process)).0 ≢ ok tt)
execute_process-begins_example = execute_process-begins process answer

abbrev with_mount : Container
with_mount = record container {
  config = record container.config {
    mounts =
        record {
          source = some "/data";
          destination = some "/mnt/data";
          type = "bind";
          flags = 4096;
          propagation_flags = 0;
          text = "";
        }
        ∷ [];
  };
}

configure_mounts-targets_example :
    All IsOnDescriptor (run answer [] (configure_mounts unset with_mount)).1
configure_mounts-targets_example = configure_mounts-targets unset with_mount answer

abbrev readonly_tmpfs : Mount
readonly_tmpfs = record {
  source = some "tmpfs";
  destination = some "/tmp";
  type = "tmpfs";
  flags = 1;
  propagation_flags = 0;
  text = "size=1m";
}

do_mount-IsMinusOne_example :
    All (MountsOn IsMinusOne) (run answer [] (do_mount (some 9) readonly_tmpfs)).1
do_mount-IsMinusOne_example = do_mount-IsMinusOne (some 9) readonly_tmpfs answer refl refl

-- A directory of files, in a system in which every file holds the first status.
abbrev plain_directory : StatusDirectory
plain_directory = record {
  write = write plain "/run/box";
  read = read plain "/run/box";
  remove = remove plain "/run/box";
  list = list plain "/run/box";
}

abbrev status_in_file : Kernel
status_in_file h (read_file path) = done (plain.dump (status_json plain first_status))
status_in_file h c = done (success c)

abbrev with_user : Container
with_user = record container {
  status_dir = plain_directory;
  config = record container.config {
    namespaces = record { type = user; path = "" } ∷ [];
    uid_mappings = record { container_id = 0; host_id = 1000; size = 1 } ∷ [];
    gid_mappings = [];
  };
}
