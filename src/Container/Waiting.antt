-- ===== src/Container/Waiting.antt =====
-- src/linyaps_box/container.cpp: the loops over `waitpid`, and the status words that they read.
use linglong_box.Prelude.{ℕ, zero, suc, ◌/◌, ◌^◌, Bool, ◌&&◌, ◌||◌, bit_and, ◌==◌, if◌then◌else◌}
use linglong_box.Kernel.{waitpid, Outcome, done, failed}
use linglong_box.Program.{Program, ret, throw, call, ◌>>=◌}
use linglong_box.Result.{system_error, undefined}
use linglong_box.Linux.Errno

abbrev pub wifexited : ℕ → Bool
wifexited status = bit_and status 0x7f == 0

abbrev pub wexitstatus : ℕ → ℕ
wexitstatus status = bit_and (status / 2 ^ 8) 0xff

-- What follows a call of `waitpid`; `rest` is the next round of the loop.
abbrev pub waited : (ℕ → Bool) → Program ℕ → Outcome ℕ → Program ℕ
waited again rest (done status) = ret status
waited again rest (failed e) = if again e then rest else throw (system_error e "waitpid")

-- `while (ret == -1) { ret = waitpid(…); … }`: the call is made again after an error that the test
-- accepts; `retries` bounds how often.
unfoldable pub wait_while : (ℕ → Bool) → ℕ → ℕ → Program ℕ
wait_while again zero pid = throw (undefined "retries used up")
wait_while again (suc retries) pid =
    call (waitpid pid) (waited again (wait_while again retries pid))

-- `errno == EINTR && errno == EAGAIN`, in `execute_hook`
abbrev pub again_in_hook : ℕ → Bool
again_in_hook e = e == Errno.eintr && e == Errno.eagain

-- `errno == EINTR || errno == EAGAIN`
abbrev pub again_elsewhere : ℕ → Bool
again_elsewhere e = e == Errno.eintr || e == Errno.eagain

-- `wait_container_process`
unfoldable pub wait_container_process : ℕ → ℕ → Program ℕ
wait_container_process retries pid = do
  status ← wait_while again_elsewhere retries pid
  ret (wexitstatus status)
