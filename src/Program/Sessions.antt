-- ===== src/Program/Sessions.antt =====
-- Two programs that talk over a pair of connected sockets, and what each of them says and hears.
pub mod Rules
pub mod Agreement
pub mod Systems
use linglong_box.Prelude.{ℕ, ◌≡◌, ◌≢◌, Bool, true, false, none, some, List, [], ◌∷◌}
use linglong_box.Result.{Error, unexpected_sync_message}
use linglong_box.Kernel.{Fd, Call, Reply, write_byte, read_byte, done, failed}
use linglong_box.Program.Avoids.{is_surprise, Avoids}
use linglong_box.Program.{Program, ret, throw, call, gone}

pub data Side : Type 0 where
  container_side : Side
  runtime_side : Side

-- A byte, and who sends it.
abbrev pub Act : Type 0
Act = Side × ℕ

-- The calls that a socket is used by.
abbrev pub is_talk : Call → Bool
is_talk (write_byte _ _) = true
is_talk (read_byte _) = true
is_talk _ = false

-- `Conforms s m t`: the bytes that `m` sends and awaits on its end of the pair are the acts of `s`, in
-- order, as far as it gets, and if it returns, those of `t` are left. A send that fails leaves its
-- act to be done. At the end of the stream the script no longer matters. Where no act is left, the
-- runtime may await the end of the stream.
module _ (me you : Side) (socket : Fd) where
  pub data Conforms {A : Type 0} : List Act → Program A → List Act → Type 0 where
    returns : {s : List Act} (a : A) → Conforms s (ret a) s
    throws : {s t : List Act} (e : Error) → is_surprise e ≡ false → Conforms s (throw e) t
    leaves : {s t : List Act} → Conforms s gone t
    sends :
        {s t : List Act} {b : ℕ} (k : Reply (write_byte socket b) → Program A)
        → Conforms s (k (done 1)) t
        → ((r : Reply (write_byte socket b)) → r ≢ done 1 → Conforms ((me, b) ∷ s) (k r) t)
        → Conforms ((me, b) ∷ s) (call (write_byte socket b) k) t
    receives :
        {s z t : List Act} {b : ℕ} (k : Reply (read_byte socket) → Program A)
        → Conforms s (k (done (some b))) t
        → Conforms z (k (done none)) t
        → ((e : ℕ) → Conforms ((you, b) ∷ s) (k (failed e)) t)
        → Conforms ((you, b) ∷ s) (call (read_byte socket) k) t
    awaits_end :
        {z t : List Act} (k : Reply (read_byte socket) → Program A)
        → me ≡ runtime_side
        → Conforms z (k (done none)) t
        → ((e : ℕ) → Conforms [] (k (failed e)) t)
        → Conforms [] (call (read_byte socket) k) t
    calls :
        {s t : List Act} (c : Call) (k : Reply c → Program A)
        → is_talk c ≡ false
        → ((r : Reply c) → Conforms s (k r) t)
        → Conforms s (call c k) t

-- Programs that use no socket and throw no such exception.
abbrev pub Silent : {A : Type 0} → Program A → Type 0
Silent m = Avoids is_talk m
