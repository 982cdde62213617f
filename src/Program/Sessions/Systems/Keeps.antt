-- ===== src/Program/Sessions/Systems/Keeps.antt =====
-- In every state that two conforming processes come to, what is left of their scripts agrees.
use linglong_box.Prelude.{
  ℕ, ◌≡◌, ◌≢◌, refl, sym, Bool, true, false, not, ◌&&◌, some, List, [], ◌∷◌, ◌++◌,
}
use linglong_box.Kernel.{Fd, Reply, read_byte, done}
use mathlib.Core.Path.{subst}
use linglong_box.Program.{Program}
use linglong_box.Program.Sessions.{
  Side, Act, Conforms, returns, throws, leaves, sends, receives, awaits_end, calls,
}
use linglong_box.Program.Sessions.Agreement.{
  Agree, Agree-swap, Agree-send, Agree-receive, Agree-end,
}
use linglong_box.Program.Sessions.Systems.{
  has_ended, Move, sent, not_sent, received, at_end, interrupted, other_call, Pair, Reaches,
  nowhere, left_moves, right_moves,
}

-- The scripts agree, or one of the processes has read the end of the stream that the other has left.
pub data Standing (me you : Side) (me_ended you_ended : Bool) (s : List Act) (o : List ℕ)
    (t : List Act) (i : List ℕ) : Type 0 where
  agreed : Agree me you s o t i → Standing me you me_ended you_ended s o t i
  i_alone : you_ended ≡ true → i ≡ [] → Standing me you me_ended you_ended s o t i
  you_alone : me_ended ≡ true → o ≡ [] → Standing me you me_ended you_ended s o t i

module _ {me you : Side} {me_ended you_ended : Bool} {s t : List Act} {o i : List ℕ} where
  Standing-swap :
      Standing me you me_ended you_ended s o t i → Standing you me you_ended me_ended t i s o
  Standing-swap (agreed a) = agreed (Agree-swap a)
  Standing-swap (i_alone e f) = you_alone e f
  Standing-swap (you_alone e f) = i_alone e f

-- A process that moves has not ended.
module _ {me you : Side} {ended : Bool} {s y : List Act} {o i : List ℕ} (now : Bool) where
  Standing-stay : Standing me you false ended s o y i → Standing me you now ended s o y i
  Standing-stay (agreed a) = agreed a
  Standing-stay (i_alone e f) = i_alone e f
  Standing-stay (you_alone e f) = absurd cc

  module _ (different : me ≢ you) {b : ℕ} where
    Standing-send :
        Standing me you false ended ((me, b) ∷ s) o y i
        → Standing me you now ended s (o ++ b ∷ []) y i
    Standing-send (agreed a) = agreed (Agree-send different i a)
    Standing-send (i_alone e f) = i_alone e f
    Standing-send (you_alone e f) = absurd cc

    Standing-receive :
        {x : ℕ}
        → Standing me you false ended ((you, b) ∷ s) o y (x ∷ i)
        → (x ≡ b) × Standing me you now ended s o y i
    Standing-receive (agreed a) = let got = Agree-receive different a in (got.0, agreed got.1)
    Standing-receive (i_alone e f) = absurd cc
    Standing-receive (you_alone e f) = absurd cc

Standing-none :
    {me you : Side} {ended : Bool} {y : List Act} {o i : List ℕ} {x : ℕ}
    → me ≢ you
    → ¬ Standing me you false ended [] o y (x ∷ i)
Standing-none different (agreed a) = Agree-end different a
Standing-none different (i_alone e f) = cc
Standing-none different (you_alone e f) = cc

-- What a move of `me` leaves.
record Kept {A : Type 0} (me you : Side) (socket : Fd) (you_ended : Bool) (left : List Act)
    (yours : List Act) (m : Program A) (i o : List ℕ) : Type 0 where
  script : List Act
  conforms : Conforms me you socket script m left
  standing : Standing me you (has_ended m) you_ended script o yours i

module _ {A : Type 0} {me you : Side} {socket : Fd} {ended : Bool} (different : me ≢ you) where
  received_one :
      {s left y : List Act} (k : Reply (read_byte socket) → Program A) {b x : ℕ} {i o : List ℕ}
      → Conforms me you socket s (k (done (some b))) left
      → (x ≡ b) × Standing me you (has_ended (k (done (some x)))) ended s o y i
      → Kept me you socket ended left y (k (done (some x))) i o
  received_one {s} {left} k p (e, st) = record {
    script = s;
    conforms = subst (λ (n : ℕ). Conforms me you socket s (k (done (some n))) left) (sym e) p;
    standing = st;
  }

  Move-keeps :
      {no_writer : Bool} {s left y : List Act} {m m' : Program A} {i o i' o' : List ℕ}
      → (no_writer ≡ true → ended ≡ true)
      → Conforms me you socket s m left
      → Move socket no_writer m i o m' i' o'
      → Standing me you (has_ended m) ended s o y i
      → Kept me you socket ended left y m' i' o'
  Move-keeps only (returns a) move st = elim move [ ]
  Move-keeps only (throws e _) move st = elim move [ ]
  Move-keeps only leaves move st = elim move [ ]
  Move-keeps only (sends k p ps) (sent same) st = record {
    script = _;
    conforms = p;
    standing = Standing-send _ different st;
  }
  Move-keeps only (sends k p ps) (not_sent r same ne) st = record {
    script = _;
    conforms = ps r ne;
    standing = Standing-stay _ st;
  }
  Move-keeps only (receives k p z ps) (received same) st =
      received_one k p (Standing-receive _ different st)
  Move-keeps only (awaits_end k last z ps) (received same) st = absurd (Standing-none different st)
  Move-keeps only (receives k p z ps) (at_end same e) st = record {
    script = _;
    conforms = z;
    standing = i_alone (only e) refl;
  }
  Move-keeps only (awaits_end k last z ps) (at_end same e) st = record {
    script = _;
    conforms = z;
    standing = i_alone (only e) refl;
  }
  Move-keeps only (receives k p z ps) (interrupted e same) st = record {
    script = _;
    conforms = ps e;
    standing = Standing-stay _ st;
  }
  Move-keeps only (awaits_end k last z ps) (interrupted e same) st = record {
    script = _;
    conforms = ps e;
    standing = Standing-stay _ st;
  }
  Move-keeps only (calls c k quiet ps) (other_call r talk) st = record {
    script = _;
    conforms = ps r;
    standing = Standing-stay _ st;
  }
  Move-keeps only (calls c k quiet ps) (sent same) st = absurd cc
  Move-keeps only (calls c k quiet ps) (not_sent r same ne) st = absurd cc
  Move-keeps only (calls c k quiet ps) (received same) st = absurd cc
  Move-keeps only (calls c k quiet ps) (at_end same e) st = absurd cc
  Move-keeps only (calls c k quiet ps) (interrupted e same) st = absurd cc
  Move-keeps only (sends k p ps) (other_call r talk) st = absurd cc
  Move-keeps only (receives k p z ps) (other_call r talk) st = absurd cc
  Move-keeps only (awaits_end k last z ps) (other_call r talk) st = absurd cc

ended-no_writer : (ended copy : Bool) → (ended && not copy) ≡ true → ended ≡ true
ended-no_writer true copy e = refl
ended-no_writer false copy e = e

-- What a state of two conforming processes satisfies.
pub record Inv {A B : Type 0} (me you : Side) (left_end right_end : Fd) (p : Pair A B)
    : Type 0 where
  pub mine : List Act
  pub yours : List Act
  pub mine_left : List Act
  pub yours_left : List Act
  pub left_conforms : Conforms me you left_end mine p.left mine_left
  pub right_conforms : Conforms you me right_end yours p.right yours_left
  pub standing :
      Standing me you (has_ended p.left) (has_ended p.right) mine p.to_right yours p.to_left

module _ {A B : Type 0} {me you : Side} {left_end right_end : Fd} (different : me ≢ you) where
  pub Reaches-Inv :
      {start p : Pair A B}
      → Inv me you left_end right_end start
      → Reaches left_end right_end start p
      → Inv me you left_end right_end p
  Reaches-Inv inv nowhere = inv
  Reaches-Inv inv (left_moves before move) =
      let was = Reaches-Inv inv before in
      let kept =
        Move-keeps different (λ e. ended-no_writer _ _ e) was.left_conforms move was.standing in
      record {
        mine = kept.script;
        yours = was.yours;
        mine_left = was.mine_left;
        yours_left = was.yours_left;
        left_conforms = kept.conforms;
        right_conforms = was.right_conforms;
        standing = kept.standing;
      }
  Reaches-Inv inv (right_moves before move) =
      let was = Reaches-Inv inv before in
      let kept =
        Move-keeps (λ e. different (sym e)) (λ e. e) was.right_conforms move
          (Standing-swap was.standing) in
      record {
        mine = was.mine;
        yours = kept.script;
        mine_left = was.mine_left;
        yours_left = was.yours_left;
        left_conforms = was.left_conforms;
        right_conforms = kept.conforms;
        standing = Standing-swap kept.standing;
      }
