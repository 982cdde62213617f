-- ===== src/Utils/Retries.antt =====
-- src/linyaps_box/utils/file_describer.cpp: the loops around `write` and `read` end.
use linglong_box.Prelude.{
  ◌≡◌, refl, ℕ, zero, suc, ◌<◌, ◌==◌, Bool, true, false, not, Option, none, some, List, [], ◌∷◌,
  ◌++◌, ◌||◌, arith, ap, ◌∙◌, Bool-cases, inl, inr, if◌then◌else◌,
}
use linglong_box.Kernel.{Call, Fd, Kernel, Outcome, done, failed, write_byte, read_byte}
use linglong_box.Linux.Errno
use linglong_box.Program.{Program, ret, throw, run}
use linglong_box.Program.Retries.{AnsweredAfter, now, later, calls_more}
use linglong_box.Result.{Result, ok, err, system_error, file_descriptor_closed}
use linglong_box.Utils.Descriptor.{transient, send, receive}

-- The answers to `write` after which it is called again: nothing written, EINTR and EAGAIN.
abbrev write_again : Outcome ℕ → Bool
write_again (done n) = not (n == 1)
write_again (failed e) = e == Errno.eintr || e == Errno.eagain

-- The answers to `read` after which it is called again: EINTR and EAGAIN.
abbrev pub read_again : {A : Type 0} → Outcome A → Bool
read_again (done _) = false
read_again (failed e) = e == Errno.eintr || e == Errno.eagain

-- What an answer to `write` leads to, `rest` being the loop.
abbrev on_write : Program Unit → Outcome ℕ → Program Unit
on_write rest r = elim r [
  | done n ↦ if n == 1 then ret tt else rest
  | failed e ↦ if transient e then rest else throw (system_error e "write")
]

on_write-again :
    (rest : Program Unit) (r : Outcome ℕ) → write_again r ≡ true → on_write rest r ≡ rest
on_write-again rest (done n) again = elim (Bool-cases (n == 1)) [
  | inl e ↦ absurd cc
  | inr e ↦ rw e refl
]
on_write-again rest (failed e) again = rw again refl

-- What an answer to `read` leads to.
abbrev on_read : Program ℕ → Outcome (Option ℕ) → Program ℕ
on_read rest r = elim r [
  | done got ↦ elim got [ none ↦ throw file_descriptor_closed | some byte ↦ ret byte ]
  | failed e ↦ if transient e then rest else throw (system_error e "read")
]

on_read-again :
    (rest : Program ℕ) (r : Outcome (Option ℕ)) → read_again r ≡ true → on_read rest r ≡ rest
on_read-again rest (done got) again = absurd cc
on_read-again rest (failed e) again = rw again refl

abbrev received : Option ℕ → Result ℕ
received none = err file_descriptor_closed
received (some byte) = ok byte

module _ (K : Kernel) (fd : Fd) where
  -- If `write` fails by EINTR or EAGAIN, or writes nothing, n times and then writes the byte, then
  -- sending makes n + 1 calls and returns, given more than n tries.
  pub send-enough :
      (retries n byte : ℕ) (h : List Call)
      → AnsweredAfter K (write_byte fd byte) write_again (done 1) h n
      → n < retries
      → run K h (send retries fd byte) ≡ (ok tt, calls_more h (write_byte fd byte) (suc n))
  unfolding send
  send-enough zero n byte h answers enough = absurd (omega arith)
  send-enough (suc retries) zero byte h (now e) enough =
      ap
        (λ (r : Outcome ℕ).
          run K (h ++ write_byte fd byte ∷ []) (on_write (send retries fd byte) r))
        e
  send-enough (suc retries) (suc n) byte h (later e more) enough =
      ap (run K (h ++ write_byte fd byte ∷ []))
        (on_write-again (send retries fd byte) (K h (write_byte fd byte)) e)
      ∙ send-enough retries n byte (h ++ write_byte fd byte ∷ []) more (omega arith)

  run-received :
      (rest : Program ℕ) (got : Option ℕ) (h : List Call)
      → run K h (on_read rest (done got)) ≡ (received got, h)
  run-received rest none h = refl
  run-received rest (some byte) h = refl

  -- If `read` fails by EINTR or EAGAIN n times and then gives a byte or the end of the stream, then
  -- receiving makes n + 1 calls and returns the byte, or throws that the descriptor is closed, given
  -- more than n tries.
  pub receive-enough :
      (retries n : ℕ) (got : Option ℕ) (h : List Call)
      → AnsweredAfter K (read_byte fd) read_again (done got) h n
      → n < retries
      → run K h (receive retries fd) ≡ (received got, calls_more h (read_byte fd) (suc n))
  unfolding receive
  receive-enough zero n got h answers enough = absurd (omega arith)
  receive-enough (suc retries) zero got h (now e) enough =
      ap
        (λ (r : Outcome (Option ℕ)).
          run K (h ++ read_byte fd ∷ []) (on_read (receive retries fd) r))
        e
      ∙ run-received (receive retries fd) got (h ++ read_byte fd ∷ [])
  receive-enough (suc retries) (suc n) got h (later e more) enough =
      ap (run K (h ++ read_byte fd ∷ []))
        (on_read-again (receive retries fd) (K h (read_byte fd)) e)
      ∙ receive-enough retries n got (h ++ read_byte fd ∷ []) more (omega arith)
