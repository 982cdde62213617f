-- ===== src/Container/Handshake/Messages.antt =====
-- src/linyaps_box/utils/file_describer.cpp, container.cpp: one message, sent or awaited.
use linglong_box.Prelude.{
  refl, ◌≡◌, ◌≢◌, ap, ℕ, zero, suc, ◌==◌, ==_iff, Bool, true, false, List, [], ◌∷◌, if◌then◌else◌,
}
use linglong_box.Kernel.{Fd, Outcome, done, failed}
use linglong_box.Result.{system_error}
use linglong_box.Program.{Program, ret, throw, ◌>>=◌, catch}
use linglong_box.Program.Sessions.{
  Side, runtime_side, Act, Conforms, returns, throws, sends, receives, awaits_end,
}
use linglong_box.Utils.Descriptor.{transient, send, receive}
use linglong_box.Container.Sync.{SyncMessage, byte_of, send_message, expect_message}
use linglong_box.Container.Lifecycle.{closed_is_fine, wait_socket_close}

-- What holds of a test's two outcomes holds of the conditional.
if-cases :
    {A : Type 0} (P : A → Type 0) (x : Bool) {m n : A}
    → (x ≡ true → P m)
    → P n
    → P (if x then m else n)
if-cases P true p q = p refl
if-cases P false p q = q

byte_same : (m : SyncMessage) → (byte_of m == byte_of m) ≡ true
byte_same m = (==_iff (byte_of m) (byte_of m)).1 refl

module _ {me you : Side} {socket : Fd} where
  unsent :
      (s : List Act) (retries b : ℕ) (r : Outcome ℕ)
      → Conforms me you socket ((me, b) ∷ s) (send retries socket b) s
      → r ≢ done 1
      → Conforms me you socket
          ((me, b) ∷ s)
          (elim r [
            | done n ↦ if n == 1 then ret tt else send retries socket b
            | failed e ↦
                if transient e then send retries socket b else throw (system_error e "write")
          ])
          s
  unsent s retries b (done n) again ne =
      if-cases (λ m. Conforms me you socket ((me, b) ∷ s) m s) (n == 1)
        (λ e. absurd (ne (ap done ((==_iff n 1).0 e)))) again
  unsent s retries b (failed e) again ne =
      if-cases (λ m. Conforms me you socket ((me, b) ∷ s) m s) (transient e) (λ _. again)
        (throws _ refl)

  pub send-Conforms :
      (s : List Act) (retries b : ℕ)
      → Conforms me you socket ((me, b) ∷ s) (send retries socket b) s
  unfolding send
  send-Conforms s zero b = throws _ refl
  send-Conforms s (suc retries) b =
      sends _ (returns tt) λ r ne. unsent s retries b r (send-Conforms s retries b) ne

  pub receive-Conforms :
      {A : Type 0} {s t : List Act} (retries b : ℕ) (f : ℕ → Program A)
      → Conforms me you socket s (f b) t
      → Conforms me you socket ((you, b) ∷ s) (receive retries socket >>= f) t
  unfolding receive
  receive-Conforms zero b f p = throws _ refl
  receive-Conforms {s} {t} (suc retries) b f p = receives {z = []} _ p (throws _ refl) λ e.
      if-cases (λ m. Conforms me you socket ((you, b) ∷ s) (m >>= f) t) (transient e)
        (λ _. receive-Conforms retries b f p) (throws _ refl)

  pub send_message-Conforms :
      (s : List Act) (retries : ℕ) (m : SyncMessage)
      → Conforms me you socket ((me, byte_of m) ∷ s) (send_message retries socket m) s
  unfolding send_message
  send_message-Conforms s retries m = send-Conforms s retries (byte_of m)

  pub expect_message-Conforms :
      (s : List Act) (retries : ℕ) (m : SyncMessage)
      → Conforms me you socket ((you, byte_of m) ∷ s) (expect_message retries socket m) s
  unfolding expect_message
  expect_message-Conforms s retries m =
      receive-Conforms retries (byte_of m) _ (rw (byte_same m) (returns tt))

  -- The wait ends by a byte, if one is left to come, or else by the end of the stream.
  pub wait-byte :
      (retries b : ℕ) → Conforms me you socket ((you, b) ∷ []) (wait_socket_close retries socket) []
  unfolding wait_socket_close receive
  wait-byte zero b = throws _ refl
  wait-byte (suc retries) b = receives _ (returns tt) (returns tt) λ e.
      if-cases
        (λ (m : Program ℕ).
          Conforms me you socket ((you, b) ∷ []) (catch (m >>= λ _. ret tt) closed_is_fine) [])
        (transient e) (λ _. wait-byte retries b) (throws _ refl)

  pub wait-end :
      (retries : ℕ)
      → me ≡ runtime_side
      → Conforms me you socket [] (wait_socket_close retries socket) []
  unfolding wait_socket_close receive
  wait-end zero last = throws _ refl
  wait-end (suc retries) last = awaits_end _ last (returns tt) λ e.
      if-cases
        (λ (m : Program ℕ). Conforms me you socket [] (catch (m >>= λ _. ret tt) closed_is_fine) [])
        (transient e) (λ _. wait-end retries last) (throws _ refl)
