-- ===== src/Container/ExitCode.antt =====
-- The exit code that running a container gives.
use linglong_box.Prelude.{◌≡◌, ℕ, ◌/◌, ◌^◌, ◌<◌, arith, []}
use linglong_box.Prelude.Bits.{bit_and-le}
use linglong_box.Kernel.{Kernel}
use linglong_box.Program.{Program, run, ◌>>=◌}
use linglong_box.Program.Returns.{Returns, Returns-bind, Returns-ret, Returns-use, Returns-scoped}
use linglong_box.Result.{ok}
use linglong_box.Container.Defs.{Container}
use linglong_box.Container.Waiting.{
  wexitstatus, wait_while, again_elsewhere, wait_container_process,
}
use linglong_box.Container.Lifecycle.{run_container}

abbrev IsByte : ℕ → Type 0
IsByte n = n < 2 ^ 8

wexitstatus-IsByte : (status : ℕ) → IsByte (wexitstatus status)
wexitstatus-IsByte status = omega (arith, bit_and-le (status / 2 ^ 8) 0xff)

wait-Returns : (retries pid : ℕ) → Returns IsByte (wait_container_process retries pid)
unfolding wait_container_process
wait-Returns retries pid =
    Returns-bind (wait_while again_elsewhere retries pid) _
      λ status. Returns-ret (wexitstatus status) (wexitstatus-IsByte status)

-- What follows the wait may use that the code is a byte.
after_wait :
    {A : Type 0} {P : A → Type 0} (retries pid : ℕ) (f : ℕ → Program A)
    → ((code : ℕ) → IsByte code → Returns P (f code))
    → Returns P (wait_container_process retries pid >>= f)
after_wait retries pid f rest = Returns-use (wait-Returns retries pid) rest

run_container-Returns : (retries : ℕ) (c : Container) → Returns IsByte (run_container retries c)
unfolding run_container
run_container-Returns retries c =
    search (after_wait, Returns-scoped, Returns-bind, Returns-ret) depth 32

-- When running a container returns, it gives an exit code below 256, whatever the system answers.
pub run_container-bounds :
    (retries : ℕ) (c : Container) (K : Kernel) (code : ℕ)
    → (run K [] (run_container retries c)).0 ≡ ok code
    → code < 256
run_container-bounds retries c K code e = (run_container-Returns retries c).at K [] code e
