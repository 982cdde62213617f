-- ===== src/Container/Tests/Talk.antt =====
-- Examples of the laws about the two processes that run a container.
use linglong_box.Prelude.{◌≢◌, refl, ℕ, false, some, [], ◌∷◌}
use linglong_box.Json.Blank.{blank}
use linglong_box.Kernel.{done}
use linglong_box.Kernel.AllSucceed.{success}
use linglong_box.Program.{Program, throw, call}
use linglong_box.Program.Sessions.Systems.{Pair, Reaches, nowhere, left_moves, sent, other_call}
use linglong_box.Result.{unexpected_sync_message}
use linglong_box.Container.Descriptors.{close_other_fds, ranges, kept, insert, insert_all}
use linglong_box.Container.Handshake.Directory.{files-IsSilentDirectory}
use linglong_box.Container.Handshake.Runtime.{IsSilentDirectory}
use linglong_box.Container.Handshake.Started.{started, started-expected}
use linglong_box.Container.Lifecycle.{clone_body, wait_for_tracer}
use linglong_box.Container.Sync.{send_message}
use linglong_box.Container.Tests.{process, unset, with_files}
use linglong_box.Container.UserNamespace.{request_container_namespaces}
use linglong_box.Utils.Descriptor.{send}

with_files-IsSilentDirectory : IsSilentDirectory with_files.status_dir
with_files-IsSilentDirectory = files-IsSilentDirectory blank "/run/box"

abbrev both : Pair Unit ℕ
both = started 3 3 unset with_files process 7 (some 6) (some 5)

-- The program after its next call has succeeded.
abbrev after_call : {A : Type 0} → Program A → Program A
after_call (call c k) = k (done (success c))
after_call m = m

-- The process of the container has asked for the trace, closed two ranges, and sent its first message.
abbrev first_message_sent : Pair Unit ℕ
first_message_sent = record both {
  left = after_call (after_call (after_call (after_call both.left)));
  to_right = 0 ∷ [];
  left_has_copy = false;
}

first_message : Reaches (some 6) (some 5) both first_message_sent
unfolding clone_body wait_for_tracer close_other_fds ranges kept insert insert_all
    request_container_namespaces send_message send
first_message =
    left_moves
      (left_moves
        (left_moves (left_moves nowhere (other_call (done false) refl)) (other_call (done tt) refl))
        (other_call (done tt) refl))
      (sent refl)

started-expected_example :
    (first_message_sent.left ≢ throw (unexpected_sync_message 1 0))
    × (first_message_sent.right ≢ throw (unexpected_sync_message 1 0))
started-expected_example =
    started-expected 3 3 unset with_files process 7 (some 6) (some 5) with_files-IsSilentDirectory
      first_message_sent 1 0 first_message
