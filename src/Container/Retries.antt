-- ===== src/Container/Retries.antt =====
-- src/linyaps_box/container.cpp: the loops around `waitpid` and `umount2` end.
use linglong_box.Prelude.{
  ◌≡◌, ap, ◌∙◌, refl, ℕ, zero, suc, ◌<◌, ◌==◌, Bool, true, false, List, [], ◌∷◌, ◌++◌, arith,
  if◌then◌else◌,
}
use linglong_box.Kernel.{Call, Kernel, Outcome, done, failed, waitpid, umount2}
use linglong_box.Linux.Errno
use linglong_box.Linux.Ms
use linglong_box.Program.{Program, ret, throw, run}
use linglong_box.Program.Retries.{AnsweredAfter, now, later, calls_more}
use linglong_box.Result.{ok, system_error}
use linglong_box.Container.Process.{unmount_all}
use linglong_box.Container.Waiting.{waited, wait_while}

abbrev wait_again : (ℕ → Bool) → Outcome ℕ → Bool
wait_again again (done _) = false
wait_again again (failed e) = again e

waited-again :
    (again : ℕ → Bool) (rest : Program ℕ) (r : Outcome ℕ)
    → wait_again again r ≡ true
    → waited again rest r ≡ rest
waited-again again rest (done status) e = absurd cc
waited-again again rest (failed n) e = rw e refl

-- If `waitpid` fails n times by an error after which the loop goes on, and then gives a status, then
-- waiting makes n + 1 calls and returns the status, given more than n tries.
pub wait_while-enough :
    (K : Kernel) (again : ℕ → Bool) (retries n pid status : ℕ) (h : List Call)
    → AnsweredAfter K (waitpid pid) (wait_again again) (done status) h n
    → n < retries
    → run K h (wait_while again retries pid) ≡ (ok status, calls_more h (waitpid pid) (suc n))
unfolding wait_while
wait_while-enough K again zero n pid status h answers enough = absurd (omega arith)
wait_while-enough K again (suc retries) zero pid status h (now e) enough =
    ap
      (λ (r : Outcome ℕ).
        run K (h ++ waitpid pid ∷ []) (waited again (wait_while again retries pid) r))
      e
wait_while-enough K again (suc retries) (suc n) pid status h (later e more) enough =
    ap (run K (h ++ waitpid pid ∷ []))
      (waited-again again (wait_while again retries pid) (K h (waitpid pid)) e)
    ∙ wait_while-enough K again retries n pid status (h ++ waitpid pid ∷ []) more (omega arith)

abbrev pub layer : Call
layer = umount2 "." Ms.mnt_detach

-- One more layer was unmounted.
abbrev unmounted : Outcome Unit → Bool
unmounted (done _) = true
unmounted (failed e) = false

abbrev on_umount : Program Unit → Outcome Unit → Program Unit
on_umount rest r = elim r [
  | done _ ↦ rest
  | failed e ↦ if e == Errno.einval then ret tt else throw (system_error e "umount2")
]

on_umount-unmounted :
    (rest : Program Unit) (r : Outcome Unit) → unmounted r ≡ true → on_umount rest r ≡ rest
on_umount-unmounted rest (done _) e = refl
on_umount-unmounted rest (failed n) e = absurd cc

-- If n layers can be unmounted from the old root and `umount2` fails by EINVAL then, the loop of
-- do_pivot_root makes n + 1 calls and returns, given more than n rounds.
pub unmount_all-enough :
    (K : Kernel) (layers n : ℕ) (h : List Call)
    → AnsweredAfter K layer unmounted (failed Errno.einval) h n
    → n < layers
    → run K h (unmount_all layers) ≡ (ok tt, calls_more h layer (suc n))
unfolding unmount_all
unmount_all-enough K zero n h answers enough = absurd (omega arith)
unmount_all-enough K (suc layers) zero h (now e) enough =
    ap (λ (r : Outcome Unit). run K (h ++ layer ∷ []) (on_umount (unmount_all layers) r)) e
unmount_all-enough K (suc layers) (suc n) h (later e more) enough =
    ap (run K (h ++ layer ∷ [])) (on_umount-unmounted (unmount_all layers) (K h layer) e)
    ∙ unmount_all-enough K layers n (h ++ layer ∷ []) more (omega arith)
