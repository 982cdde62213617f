-- ===== src/Program/Sessions/Systems/Frees.antt =====
-- Programs that close their copy of a descriptor before they use a socket.
use linglong_box.Prelude.{
  ℕ, ◌≡◌, refl, ◌⊎◌, inl, inr, Bool, true, false, not, ◌&&◌, Bool-cases, List,
}
use linglong_box.Result.{Error}
use linglong_box.Kernel.{Fd, Call, Reply}
use linglong_box.Program.{Program, ret, throw, call, gone, ◌>>=◌}
use linglong_box.Program.Avoids.{avoids_ret, avoids_throw, avoids_gone, avoids_call}
use linglong_box.Program.Sessions.{is_talk, Silent}
use linglong_box.Program.Sessions.Systems.{
  has_ended, Move, sent, not_sent, received, at_end, interrupted, other_call, lets_go, has_still,
  CanMove, can_call,
}

pub data Frees (end : Fd) {A : Type 0} : Program A → Type 0 where
  frees_ret : (a : A) → Frees end (ret a)
  frees_throw : (e : Error) → Frees end (throw e)
  frees_gone : Frees end gone
  frees_call :
      (c : Call) (k : Reply c → Program A)
      → is_talk c ≡ false
      → ((r : Reply c) → lets_go end c r ≡ false → Frees end (k r))
      → Frees end (call c k)

-- The copy is closed, or it will be before a socket is used.
abbrev pub IsFree : {A : Type 0} → Fd → Bool → Program A → Type 0
IsFree end has m = (has ≡ false) ⊎ Frees end m

closed : (has let_go : Bool) → let_go ≡ true → (has && not let_go) ≡ false
closed true true e = refl
closed true false e = cc
closed false let_go e = refl

kept_closed :
    {socket : Fd} {no_writer : Bool} {A : Type 0} {m m' : Program A} {i o i' o' : List ℕ} (end : Fd)
    (move : Move socket no_writer m i o m' i' o')
    → has_still end false move ≡ false
kept_closed end (sent same) = refl
kept_closed end (not_sent r same ne) = refl
kept_closed end (received same) = refl
kept_closed end (at_end same e) = refl
kept_closed end (interrupted e same) = refl
kept_closed end (other_call r talk) = refl

module _ {A : Type 0} {end : Fd} where
  -- What comes after a program that uses no socket.
  pub Frees-after :
      {B : Type 0} {m : Program B} {f : B → Program A}
      → Silent m
      → ((b : B) → Frees end (f b))
      → Frees end (m >>= f)
  Frees-after (avoids_ret b) p = p b
  Frees-after (avoids_throw e _) p = frees_throw e
  Frees-after avoids_gone p = frees_gone
  Frees-after {f} (avoids_call c k quiet q) p =
      frees_call c (λ r. k r >>= f) quiet λ r _. Frees-after (q r) p

  Frees-moves :
      {socket : Fd} {no_writer : Bool} {m m' : Program A} {i o i' o' : List ℕ} (has : Bool)
      (move : Move socket no_writer m i o m' i' o')
      → Frees end m
      → IsFree end (has_still end has move) m'
  Frees-moves has (other_call r talk) (frees_call c k quiet p) =
      elim (Bool-cases (lets_go end c r)) [
        | inl e ↦ inl (closed has (lets_go end c r) e)
        | inr e ↦ inr (p r e)
      ]
  Frees-moves has (sent same) (frees_call c k quiet p) = absurd cc
  Frees-moves has (not_sent r same ne) (frees_call c k quiet p) = absurd cc
  Frees-moves has (received same) (frees_call c k quiet p) = absurd cc
  Frees-moves has (at_end same e) (frees_call c k quiet p) = absurd cc
  Frees-moves has (interrupted e same) (frees_call c k quiet p) = absurd cc

  pub IsFree-moves :
      {socket : Fd} {no_writer : Bool} {m m' : Program A} {i o i' o' : List ℕ} (has : Bool)
      (move : Move socket no_writer m i o m' i' o')
      → IsFree end has m
      → IsFree end (has_still end has move) m'
  IsFree-moves has move (inr p) = Frees-moves has move p
  IsFree-moves false move (inl e) = inl (kept_closed end move)
  IsFree-moves true move (inl e) = cc

  pub Frees-CanMove :
      {socket : Fd} {no_writer : Bool} {m : Program A} (i : List ℕ)
      → Frees end m
      → (has_ended m ≡ true) ⊎ CanMove socket no_writer m i
  Frees-CanMove i (frees_ret a) = inl refl
  Frees-CanMove i (frees_throw e) = inl refl
  Frees-CanMove i frees_gone = inl refl
  Frees-CanMove i (frees_call c k quiet p) = inr (can_call quiet)
