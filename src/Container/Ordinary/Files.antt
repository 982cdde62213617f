-- ===== src/Container/Ordinary/Files.antt =====
-- What is ordinary: the files and the waiting for processes.
use linglong_box.Prelude.{refl, ℕ, zero, suc, String, Bool, List, [], ◌∷◌}
use linglong_box.Kernel.{Fd, Outcome, done, failed}
use linglong_box.Program.Avoids.{
  avoids_rules, avoids_ret, avoids_throw, avoids_call, Avoids-if, Avoids-outcome, Avoids-bind,
}
use linglong_box.Container.Ordinary.{IsOrdinary}
use linglong_box.Utils.Files.{
  open_file, open_at, made_or_there, mkdir_parts, mkdir, mknod, touch, lstat, opened, atomic_write,
}
use linglong_box.Container.Waiting.{wait_while, wait_container_process}

pub wait_while-IsOrdinary :
    (again : ℕ → Bool) (retries pid : ℕ) → IsOrdinary (wait_while again retries pid)
unfolding wait_while
wait_while-IsOrdinary again zero pid = search avoids_rules
wait_while-IsOrdinary again (suc retries) pid = avoids_call _ _ refl (
    Avoids-outcome _ (λ status. avoids_ret status)
      (λ e. Avoids-if _ _ _ (wait_while-IsOrdinary again retries pid) (avoids_throw _ refl)))

pub wait_container_process-IsOrdinary :
    (retries pid : ℕ) → IsOrdinary (wait_container_process retries pid)
unfolding wait_container_process
wait_container_process-IsOrdinary retries pid = search (avoids_rules, wait_while-IsOrdinary)

pub open_file-IsOrdinary : (path : String) (flag : ℕ) → IsOrdinary (open_file path flag)
unfolding open_file
open_file-IsOrdinary path flag = search avoids_rules

pub open_at-IsOrdinary :
    (root : Fd) (path : String) (flag : ℕ) → IsOrdinary (open_at root path flag)
unfolding open_at
open_at-IsOrdinary root path flag = search avoids_rules

made_or_there-IsOrdinary : (r : Outcome Unit) → IsOrdinary (made_or_there r)
unfolding made_or_there
made_or_there-IsOrdinary (done _) = search avoids_rules
made_or_there-IsOrdinary (failed e) = search avoids_rules

mkdir_parts-IsOrdinary :
    (current : Fd) (parts : List String) (mode : ℕ) → IsOrdinary (mkdir_parts current parts mode)
unfolding mkdir_parts
mkdir_parts-IsOrdinary current [] mode = search avoids_rules
mkdir_parts-IsOrdinary current (part ∷ parts) mode =
    search
      (avoids_rules, made_or_there-IsOrdinary, λ (fd : Fd). mkdir_parts-IsOrdinary fd parts mode)

pub mkdir-IsOrdinary :
    (root : Fd) (parts : List String) (mode : ℕ) → IsOrdinary (mkdir root parts mode)
unfolding mkdir
mkdir-IsOrdinary root parts mode = search (avoids_rules, mkdir_parts-IsOrdinary)

pub mknod-IsOrdinary :
    (root : Fd) (path : String) (mode dev : ℕ) → IsOrdinary (mknod root path mode dev)
unfolding mknod
mknod-IsOrdinary root path mode dev = search avoids_rules

pub touch-IsOrdinary : (root : Fd) (path : String) → IsOrdinary (touch root path)
unfolding touch
touch-IsOrdinary root path = search avoids_rules

pub lstat-IsOrdinary : (fd : Fd) → IsOrdinary (lstat fd)
unfolding lstat
lstat-IsOrdinary fd = search avoids_rules

opened-IsOrdinary : (r : Outcome Unit) → IsOrdinary (opened r)
opened-IsOrdinary (done _) = search avoids_rules
opened-IsOrdinary (failed e) = search avoids_rules

pub atomic_write-IsOrdinary : (path content : String) → IsOrdinary (atomic_write path content)
unfolding atomic_write
atomic_write-IsOrdinary path content = search (avoids_rules, opened-IsOrdinary)

pub ruleset ordinary_calls = (
  avoids_rules, wait_while-IsOrdinary, wait_container_process-IsOrdinary, open_file-IsOrdinary,
  open_at-IsOrdinary, mkdir-IsOrdinary, mknod-IsOrdinary, touch-IsOrdinary, lstat-IsOrdinary,
  atomic_write-IsOrdinary,
)
