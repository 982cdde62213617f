-- ===== src/Program/Traces.antt =====
-- What a run shows of its calls, under a view that passes over the rest: rules for each way to build
-- a program.
pub mod Binds
pub mod Quiet
pub mod Follows
use mathlib.Core.List.{flat_map}
use linglong_box.Prelude.{
  ◌≡◌, refl, sym, ◌∙◌, ap, Bool, true, false, if◌then◌else◌, List, [], ◌∷◌, ◌++◌, append_assoc,
  append-nil,
}
use linglong_box.Result.{Error, Result, ok, err}
use linglong_box.Kernel.{Call, Value, Reply, Kernel, Outcome, done, failed}
use linglong_box.Program.{
  Program, ret, throw, call, gone, ◌>>=◌, ◌>>◌, catch, for_each, run, value_or, sys,
}
use linglong_box.Program.Laws.{continue, run-bind}

module _ {E : Type 0} (see : Call → List E) where
  unfoldable pub seen : List Call → List E
  unfolding flat_map
  seen = flat_map see

  pub seen-append : (g h : List Call) → seen (g ++ h) ≡ seen g ++ seen h
  unfolding seen
  seen-append [] h = refl
  seen-append (c ∷ g) h =
      ap (λ (l : List E). see c ++ l) (seen-append g h)
      ∙ sym (append_assoc (see c) (seen g) (seen h))

  pub seen-one : (c : Call) → seen (c ∷ []) ≡ see c
  unfolding seen flat_map
  seen-one c = append-nil (see c)

  pub seen-nil : seen [] ≡ []
  unfolding seen flat_map
  seen-nil = refl

  -- Every run shows these events, however it ends.
  pub record Always {A : Type 0} (m : Program A) (xs : List E) : Type 0 where
    pub at : (K : Kernel) (h : List Call) → seen (run K h m).1 ≡ seen h ++ xs

  -- Every run that returns shows these events.
  pub record Shows {A : Type 0} (m : Program A) (xs : List E) : Type 0 where
    pub at :
        (K : Kernel) (h : List Call) (a : A)
        → (run K h m).0 ≡ ok a
        → seen (run K h m).1 ≡ seen h ++ xs

  pub after_call :
      (h : List Call) (c : Call) (xs : List E) → seen (h ++ c ∷ []) ++ xs ≡ seen h ++ (see c ++ xs)
  after_call h c xs =
      ap (λ (l : List E). l ++ xs)
        (seen-append h (c ∷ []) ∙ ap (λ (l : List E). seen h ++ l) (seen-one c))
      ∙ append_assoc (seen h) (see c) xs

  module _ {A : Type 0} where
    pub Always-Shows : {m : Program A} {xs : List E} → Always m xs → Shows m xs
    Always-Shows s = record { at = λ K h a e. s.at K h }

    pub Always-ret : (a : A) → Always (ret a) []
    Always-ret a = record { at = λ K h. sym (append-nil (seen h)) }

    pub Always-throw : (e : Error) → Always {A = A} (throw e) []
    Always-throw e = record { at = λ K h. sym (append-nil (seen h)) }

    pub Always-gone : Always {A = A} gone []
    Always-gone = record { at = λ K h. sym (append-nil (seen h)) }

    pub Always-call :
        {c : Call} {k : Reply c → Program A} {xs : List E}
        → ((r : Reply c) → Always (k r) xs)
        → Always (call c k) (see c ++ xs)
    Always-call {c = c} {xs = xs} s = record {
      at = λ K h. (s (K h c)).at K (h ++ c ∷ []) ∙ after_call h c xs;
    }

    pub Shows-call :
        {c : Call} {k : Reply c → Program A} {xs : List E}
        → ((r : Reply c) → Shows (k r) xs)
        → Shows (call c k) (see c ++ xs)
    Shows-call {c = c} {xs = xs} s = record {
      at = λ K h a e. (s (K h c)).at K (h ++ c ∷ []) a e ∙ after_call h c xs;
    }
