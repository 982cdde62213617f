-- ===== src/Container/Tests/Tries.antt =====
-- Examples of the laws about loops that make a call again.
use linglong_box.Prelude.{◌≡◌, refl, none, some, List, [], ◌∷◌, arith}
use linglong_box.Kernel.{Call, Reply, done, failed, write_byte, read_byte, waitpid}
use linglong_box.Kernel.AllSucceed.{success}
use linglong_box.Linux.Errno
use linglong_box.Program.{run}
use linglong_box.Program.Retries.{now, later, calls_more}
use linglong_box.Result.{ok, err, file_descriptor_closed}
use linglong_box.Utils.Descriptor.{send, receive}
use linglong_box.Utils.Retries.{send-enough, receive-enough}
use linglong_box.Container.Process.{unmount_all}
use linglong_box.Container.Retries.{layer, wait_while-enough, unmount_all-enough}
use linglong_box.Container.Waiting.{again_elsewhere, wait_while}

-- The first two calls are interrupted.
abbrev interrupted_twice : List Call → (c : Call) → Reply c
interrupted_twice [] c = failed Errno.eintr
interrupted_twice (_ ∷ []) c = failed Errno.eintr
interrupted_twice (_ ∷ _ ∷ _) c = done (success c)

-- The first two calls succeed, and the others fail by EINVAL.
abbrev two_layers : List Call → (c : Call) → Reply c
two_layers [] c = done (success c)
two_layers (_ ∷ []) c = done (success c)
two_layers (_ ∷ _ ∷ _) c = failed Errno.einval

send-enough_example :
    run interrupted_twice [] (send 3 (some 6) 4) ≡ (ok tt, calls_more [] (write_byte (some 6) 4) 3)
send-enough_example =
    send-enough interrupted_twice (some 6) 3 2 4 [] (later refl (later refl (now refl)))
      (omega arith)

receive-enough_example :
    run interrupted_twice [] (receive 3 (some 6))
    ≡ (err file_descriptor_closed, calls_more [] (read_byte (some 6)) 3)
receive-enough_example =
    receive-enough interrupted_twice (some 6) 3 2 none [] (later refl (later refl (now refl)))
      (omega arith)

wait_while-enough_example :
    run interrupted_twice [] (wait_while again_elsewhere 3 7) ≡ (ok 0, calls_more [] (waitpid 7) 3)
wait_while-enough_example =
    wait_while-enough interrupted_twice again_elsewhere 3 2 7 0 []
      (later refl (later refl (now refl))) (omega arith)

unmount_all-enough_example : run two_layers [] (unmount_all 3) ≡ (ok tt, calls_more [] layer 3)
unmount_all-enough_example =
    unmount_all-enough two_layers 3 2 [] (later refl (later refl (now refl))) (omega arith)
