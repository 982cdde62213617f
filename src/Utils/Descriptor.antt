-- ===== src/Utils/Descriptor.antt =====
-- src/linyaps_box/utils/file_describer.cpp: reading and writing one byte, and moving descriptors.
-- A call that is interrupted is made again; `retries` bounds how often.
use linglong_box.Prelude.{ℕ, zero, suc, Bool, none, some, ◌||◌, ◌==◌, if◌then◌else◌}
use linglong_box.Result.{system_error, file_descriptor_closed, undefined}
use linglong_box.Kernel.{Fd, write_byte, read_byte, close, done, failed}
use linglong_box.Program.{Program, ret, throw, call}
use linglong_box.Linux.Errno

abbrev pub transient : ℕ → Bool
transient e = e == Errno.eintr || e == Errno.eagain

-- `operator<<`
unfoldable pub send : ℕ → Fd → ℕ → Program Unit
send zero fd byte = throw (undefined "retries used up")
send (suc retries) fd byte = call (write_byte fd byte) λ r. elim r [
  | done n ↦ if n == 1 then ret tt else send retries fd byte
  | failed e ↦ if transient e then send retries fd byte else throw (system_error e "write")
]

-- `operator>>`; an answer `none` is the 0 that `read` returns at the end of the stream.
unfoldable pub receive : ℕ → Fd → Program ℕ
receive zero fd = throw (undefined "retries used up")
receive (suc retries) fd = call (read_byte fd) λ r. elim r [
  | done got ↦ elim got [ none ↦ throw file_descriptor_closed | some byte ↦ ret byte ]
  | failed e ↦ if transient e then receive retries fd else throw (system_error e "read")
]

-- The move assignment swaps: the target and the source after it.
unfoldable pub move_assign : Fd → Fd → Fd × Fd
move_assign target source = (source, target)

-- The move constructor, which assigns to a new descriptor: the new one, and the source after it.
unfoldable pub move_from : Fd → Fd × Fd
move_from source = move_assign none source

-- `release`: what it gives, and the descriptor after it.
unfoldable pub release : Fd → Fd × Fd
release fd = (fd, none)

-- The destructor; what `close` answers is not looked at.
unfoldable pub destroy : Fd → Program Unit
destroy none = ret tt
destroy (some n) = call (close n) λ _. ret tt
