-- ===== src/Container/Hooks/Laws.antt =====
-- Waiting for a hook.
use linglong_box.Prelude.{some, ◌≡◌, refl, ap, fun_ext, ℕ, suc, false, arith}
use linglong_box.Config.{Hook}
use linglong_box.Kernel.{waitpid, Outcome, done, failed, fork_execute}
use linglong_box.Program.{Program, call, sys, ◌>>=◌}
use linglong_box.Container.Waiting.{waited, wait_while, again_in_hook}
use linglong_box.Container.Hooks.{hook_args, hook_env, hook_result, execute_hook}

never_again : (e : ℕ) → again_in_hook e ≡ false
never_again e = ground arith

one_round :
    (rest rest' : Program ℕ) (r : Outcome ℕ)
    → waited again_in_hook rest r ≡ waited again_in_hook rest' r
one_round rest rest' (done status) = refl
one_round rest rest' (failed e) = rw (never_again e) refl

wait_once :
    (retries pid : ℕ) → wait_while again_in_hook (suc retries) pid ≡ wait_while again_in_hook 1 pid
unfolding wait_while
wait_once retries pid = ap (call (waitpid pid)) (fun_ext (one_round _ _))

-- A hook is waited for once: however often the loop may call waitpid, an error of the first call
-- ends it, also EINTR and EAGAIN, for which the loop is there.
pub execute_hook-once :
    (retries : ℕ) (hook : Hook) → execute_hook (suc retries) hook ≡ execute_hook 1 hook
unfolding execute_hook
execute_hook-once retries hook =
    ap
      (λ (wait : ℕ → Program ℕ).
        sys (fork_execute (hook_args hook) (some (hook_env hook))) "fork" >>= λ pid.
        wait pid >>= hook_result)
      (fun_ext (wait_once retries))
