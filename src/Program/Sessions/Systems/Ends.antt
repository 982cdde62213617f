-- ===== src/Program/Sessions/Systems/Ends.antt =====
-- Two conforming processes both end, in whatever order they move and whatever the system answers.
use mathlib.Core.WellFounded.{Acc}
use mathlib.Core.Path.{subst}
use linglong_box.Prelude.{ℕ, ◌≡◌, ◌≢◌, refl, sym, ◌⊎◌, inl, inr, Bool, true, List}
use linglong_box.Kernel.{Fd, Reply}
use linglong_box.Program.{Program, ret, throw, call, gone}
use linglong_box.Program.Sessions.{Side}
use linglong_box.Program.Sessions.Systems.{
  has_ended, Move, sent, not_sent, received, at_end, interrupted, other_call, Pair, nowhere,
  left_moves, right_moves, has_still, no_right_writer, CanMove,
}
use linglong_box.Program.Sessions.Systems.Frees.{IsFree, IsFree-moves}
use linglong_box.Program.Sessions.Systems.Keeps.{Inv, Reaches-Inv}
use linglong_box.Program.Sessions.Systems.Progress.{Inv-progress}

module _ {A B : Type 0} (left_end right_end : Fd) where
  abbrev pub OneCanMove : Pair A B → Type 0
  OneCanMove p =
      CanMove left_end (no_right_writer p) p.left p.to_left
      ⊎ CanMove right_end (has_ended p.left) p.right p.to_right

  -- Both processes have ended, or one of them can move, and after every move they come to an end.
  pub data BothEnd : Pair A B → Type 0 where
    over : {p : Pair A B} → has_ended p.left ≡ true → has_ended p.right ≡ true → BothEnd p
    going_on :
        {p : Pair A B}
        → OneCanMove p
        → ((m : Program A) (i o : List ℕ)
              (move : Move left_end (no_right_writer p) p.left p.to_left p.to_right m i o)
            → BothEnd (record {
              left = m;
              right = p.right;
              to_left = i;
              to_right = o;
              left_has_copy = has_still right_end p.left_has_copy move;
            }))
        → ((m : Program B) (i o : List ℕ)
            → Move right_end (has_ended p.left) p.right p.to_right p.to_left m i o
            → BothEnd (record {
              left = p.left;
              right = m;
              to_left = o;
              to_right = i;
              left_has_copy = p.left_has_copy;
            }))
        → BothEnd p

-- What a program goes on with after its next call.
abbrev Next : {A : Type 0} → Program A → Program A → Type 0
Next n (call c k) = (r : Reply c) × (n ≡ k r)
Next n _ = ⊥

module _ {A : Type 0} where
  Next-acc : (m : Program A) → Acc Next m
  Next-acc (ret a) = Acc.intro (ret a) λ n s. elim s [ ]
  Next-acc (throw e) = Acc.intro (throw e) λ n s. elim s [ ]
  Next-acc gone = Acc.intro gone λ n s. elim s [ ]
  Next-acc (call c k) = Acc.intro (call c k) λ n s. subst (Acc Next) (sym s.1) (Next-acc (k s.0))

  Move-Next :
      {socket : Fd} {ended : Bool} {m m' : Program A} {i o i' o' : List ℕ}
      → Move socket ended m i o m' i' o'
      → Next m' m
  Move-Next (sent _) = (_, refl)
  Move-Next (not_sent r _ _) = (r, refl)
  Move-Next (received _) = (_, refl)
  Move-Next (at_end _ _) = (_, refl)
  Move-Next (interrupted e _) = (_, refl)
  Move-Next (other_call r _) = (r, refl)

module _ {A B : Type 0} {me you : Side} {left_end right_end : Fd} (different : me ≢ you) where
  ends :
      (p : Pair A B)
      → Acc Next p.left
      → Acc Next p.right
      → Inv me you left_end right_end p
      → IsFree right_end p.left_has_copy p.left
      → BothEnd left_end right_end p
  ends p (Acc.intro _ f) (Acc.intro _ g) inv free = elim (Inv-progress different p inv free) [
    | inl both ↦ over both.0 both.1
    | inr can ↦
        going_on can
          (λ m i o move.
            ends _ (f _ (Move-Next move)) (Acc.intro _ g)
              (Reaches-Inv different inv (left_moves nowhere move))
              (IsFree-moves p.left_has_copy move free))
          (λ m i o move.
            ends _ (Acc.intro _ f) (g _ (Move-Next move))
              (Reaches-Inv different inv (right_moves nowhere move)) free)
  ]

  pub Inv-BothEnd :
      (p : Pair A B)
      → Inv me you left_end right_end p
      → IsFree right_end p.left_has_copy p.left
      → BothEnd left_end right_end p
  Inv-BothEnd p inv free = ends p (Next-acc p.left) (Next-acc p.right) inv free
