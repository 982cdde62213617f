-- ===== src/Container/Order/Quiet.antt =====
-- What shows no event: the messages, the waiting for processes and the closing of descriptors.
use linglong_box.Prelude.{refl, ℕ, zero, suc, none, some, Bool, []}
use linglong_box.Kernel.{Fd}
use linglong_box.Program.{Program}
use linglong_box.Program.Traces.{Always}
use linglong_box.Program.Traces.Quiet.{
  quiet_rules, quiet-throw, quiet-if, quiet-ret, quiet-call, quiet-outcome, quiet-option,
}
use linglong_box.Utils.Descriptor.{send, receive, destroy}
use linglong_box.Container.Ordinary.{IsOrdinary-Always}
use linglong_box.Container.Ordinary.Files.{wait_while-IsOrdinary, wait_container_process-IsOrdinary}
use linglong_box.Container.Sync.{SyncMessage, send_message, expect_message}
use linglong_box.Container.Waiting.{wait_while, wait_container_process}
use linglong_box.Container.Order.{event_of}

abbrev pub IsQuiet : {A : Type 0} → Program A → Type 0
IsQuiet m = Always event_of m []

pub send-IsQuiet : (retries : ℕ) (fd : Fd) (byte : ℕ) → IsQuiet (send retries fd byte)
unfolding send
send-IsQuiet zero fd byte = search quiet_rules
send-IsQuiet (suc retries) fd byte = quiet-call _ _ refl (
    quiet-outcome _ (λ n. quiet-if _ _ _ (quiet-ret tt) (send-IsQuiet retries fd byte))
      (λ e. quiet-if _ _ _ (send-IsQuiet retries fd byte) (quiet-throw _)))

pub receive-IsQuiet : (retries : ℕ) (fd : Fd) → IsQuiet (receive retries fd)
unfolding receive
receive-IsQuiet zero fd = search quiet_rules
receive-IsQuiet (suc retries) fd = quiet-call _ _ refl (
    quiet-outcome _ (quiet-option _ (quiet-throw _) (λ b. quiet-ret b))
      (λ e. quiet-if _ _ _ (receive-IsQuiet retries fd) (quiet-throw _)))

pub send_message-IsQuiet :
    (retries : ℕ) (fd : Fd) (m : SyncMessage) → IsQuiet (send_message retries fd m)
unfolding send_message
send_message-IsQuiet retries fd m = send-IsQuiet retries fd _

pub expect_message-IsQuiet :
    (retries : ℕ) (fd : Fd) (m : SyncMessage) → IsQuiet (expect_message retries fd m)
unfolding expect_message
expect_message-IsQuiet retries fd m = search (quiet_rules, receive-IsQuiet)

pub destroy-IsQuiet : (fd : Fd) → IsQuiet (destroy fd)
unfolding destroy
destroy-IsQuiet none = search quiet_rules
destroy-IsQuiet (some n) = search quiet_rules

pub wait_while-IsQuiet :
    (again : ℕ → Bool) (retries pid : ℕ) → IsQuiet (wait_while again retries pid)
wait_while-IsQuiet again retries pid = IsOrdinary-Always (wait_while-IsOrdinary again retries pid)

pub wait_container_process-IsQuiet :
    (retries pid : ℕ) → IsQuiet (wait_container_process retries pid)
wait_container_process-IsQuiet retries pid =
    IsOrdinary-Always (wait_container_process-IsOrdinary retries pid)

pub ruleset quiet_calls = (
  quiet_rules, send_message-IsQuiet, expect_message-IsQuiet, receive-IsQuiet, wait_while-IsQuiet,
  wait_container_process-IsQuiet, destroy-IsQuiet,
)
