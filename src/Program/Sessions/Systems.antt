-- ===== src/Program/Sessions/Systems.antt =====
-- Two processes at the ends of a pair of sockets, as one system.
pub mod Keeps
pub mod Frees
pub mod Progress
pub mod Ends
use linglong_box.Prelude.{
  ℕ, ◌≡◌, ◌≢◌, Bool, true, false, not, ◌&&◌, leb, ◌==◌, none, some, List, [], ◌∷◌, ◌++◌,
}
use linglong_box.Kernel.{Fd, Call, Reply, write_byte, read_byte, close_range, close, done, failed}
use linglong_box.Program.{Program, call}
use linglong_box.Program.Sessions.{is_talk}

abbrev pub has_ended : {A : Type 0} → Program A → Bool
has_ended (call c k) = false
has_ended _ = true

-- A process with the bytes `i` that are on their way to it and `o` that are on their way from it makes
-- its next call. A byte that is sent is delivered in order; a send may fail, and so may the wait for a
-- byte; the end of the stream is read when nothing is on its way and no process has the other end open any
-- more, which `no_writer` tells. Every other call has any answer.
pub data Move (socket : Fd) (no_writer : Bool) {A : Type 0}
    : Program A → List ℕ → List ℕ → Program A → List ℕ → List ℕ → Type 0 where
  sent :
      {i o : List ℕ} {fd : Fd} {b : ℕ} {k : Reply (write_byte fd b) → Program A}
      → fd ≡ socket
      → Move socket no_writer (call (write_byte fd b) k) i o (k (done 1)) i (o ++ b ∷ [])
  not_sent :
      {i o : List ℕ} {fd : Fd} {b : ℕ} {k : Reply (write_byte fd b) → Program A}
      (r : Reply (write_byte fd b))
      → fd ≡ socket
      → r ≢ done 1
      → Move socket no_writer (call (write_byte fd b) k) i o (k r) i o
  received :
      {i o : List ℕ} {fd : Fd} {b : ℕ} {k : Reply (read_byte fd) → Program A}
      → fd ≡ socket
      → Move socket no_writer (call (read_byte fd) k) (b ∷ i) o (k (done (some b))) i o
  at_end :
      {o : List ℕ} {fd : Fd} {k : Reply (read_byte fd) → Program A}
      → fd ≡ socket
      → no_writer ≡ true
      → Move socket no_writer (call (read_byte fd) k) [] o (k (done none)) [] o
  interrupted :
      {i o : List ℕ} {fd : Fd} {k : Reply (read_byte fd) → Program A} (e : ℕ)
      → fd ≡ socket
      → Move socket no_writer (call (read_byte fd) k) i o (k (failed e)) i o
  other_call :
      {i o : List ℕ} {c : Call} {k : Reply c → Program A} (r : Reply c)
      → is_talk c ≡ false
      → Move socket no_writer (call c k) i o (k r) i o

-- Whether the call, with this answer, closes the descriptor.
abbrev pub lets_go : Fd → (c : Call) → Reply c → Bool
lets_go (some n) (close_range low high) (done _) = leb low n && leb n high
lets_go (some n) (close m) r = n == m
lets_go _ _ _ = false

-- Whether a process that has had a copy of the descriptor has it still after a move.
abbrev pub has_still :
    {socket : Fd} {no_writer : Bool} {A : Type 0} {m m' : Program A} {i o i' o' : List ℕ}
    → Fd
    → Bool
    → Move socket no_writer m i o m' i' o'
    → Bool
has_still end has (other_call {c = c} r _) = has && not (lets_go end c r)
has_still end has _ = has

-- `left_has_copy`: the left process, which was cloned from the right one, still has a copy of the right
-- one's end open.
pub record Pair (A B : Type 0) : Type 0 where
  pub left : Program A
  pub right : Program B
  pub to_left : List ℕ
  pub to_right : List ℕ
  pub left_has_copy : Bool

-- Whether what is on its way to the left process is all that ever comes: the right process has ended,
-- and the left one keeps no copy of its end.
abbrev pub no_right_writer : {A B : Type 0} → Pair A B → Bool
no_right_writer p = has_ended p.right && not p.left_has_copy

-- The states that the two processes come to from `start`, in whatever order they move.
pub data Reaches {A B : Type 0} (left_end right_end : Fd) (start : Pair A B)
    : Pair A B → Type 0 where
  nowhere : Reaches left_end right_end start start
  left_moves :
      {p : Pair A B} {m : Program A} {i o : List ℕ}
      → Reaches left_end right_end start p
      → (move : Move left_end (no_right_writer p) p.left p.to_left p.to_right m i o)
      → Reaches left_end right_end start (record {
        left = m;
        right = p.right;
        to_left = i;
        to_right = o;
        left_has_copy = has_still right_end p.left_has_copy move;
      })
  right_moves :
      {p : Pair A B} {m : Program B} {i o : List ℕ}
      → Reaches left_end right_end start p
      → Move right_end (has_ended p.left) p.right p.to_right p.to_left m i o
      → Reaches left_end right_end start (record {
        left = p.left;
        right = m;
        to_left = o;
        to_right = i;
        left_has_copy = p.left_has_copy;
      })

-- A call that is answered whether or not the other process moves.
pub data CanMove (socket : Fd) (no_writer : Bool) {A : Type 0} : Program A → List ℕ → Type 0 where
  can_send :
      {i : List ℕ} {b : ℕ} {k : Reply (write_byte socket b) → Program A}
      → CanMove socket no_writer (call (write_byte socket b) k) i
  can_receive :
      {i : List ℕ} {b : ℕ} {k : Reply (read_byte socket) → Program A}
      → CanMove socket no_writer (call (read_byte socket) k) (b ∷ i)
  can_end :
      {k : Reply (read_byte socket) → Program A}
      → no_writer ≡ true
      → CanMove socket no_writer (call (read_byte socket) k) []
  can_call :
      {i : List ℕ} {c : Call} {k : Reply c → Program A}
      → is_talk c ≡ false
      → CanMove socket no_writer (call c k) i
