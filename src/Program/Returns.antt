-- ===== src/Program/Returns.antt =====
-- What a program returns, whatever the system answers: rules for each way to build a program.
use linglong_box.Prelude.{◌≡◌, refl, List, [], ◌∷◌, ◌++◌}
use mathlib.Core.Path.{subst}
use linglong_box.Result.{Error, Result, ok, err}
use linglong_box.Kernel.{Call, Reply, Kernel}
use linglong_box.Program.{Program, ret, throw, call, gone, ◌>>=◌, scoped, run}
use linglong_box.Program.Laws.{continue, run-bind, scoped-ok}

pub record Returns {A : Type 0} (P : A → Type 0) (m : Program A) : Type 0 where
  pub at : (K : Kernel) (h : List Call) (a : A) → (run K h m).0 ≡ ok a → P a

module _ {A : Type 0} {P : A → Type 0} where
  pub Returns-ret : (a : A) → P a → Returns P (ret a)
  Returns-ret a p = record { at = λ K h b e. let same : a ≡ b = cc in subst P same p }

  pub Returns-throw : (e : Error) → Returns P (throw e)
  Returns-throw e = record { at = λ K h b p. cc }

  pub Returns-gone : Returns P gone
  Returns-gone = record { at = λ K h b p. cc }

  pub Returns-call :
      (c : Call) (k : Reply c → Program A)
      → ((r : Reply c) → Returns P (k r))
      → Returns P (call c k)
  Returns-call c k p = record { at = λ K h a e. (p (K h c)).at K (h ++ c ∷ []) a e }

  module _ {B : Type 0} where
    Returns-continue :
        (K : Kernel) (r : Result B × List Call) (f : B → Program A) (a : A)
        → ((b : B) → Returns P (f b))
        → (continue K f r).0 ≡ ok a
        → P a
    Returns-continue K (ok b, h) f a p e = (p b).at K h a e
    Returns-continue K (err x, h) f a p e = cc

    pub Returns-bind :
        (m : Program B) (f : B → Program A) → ((b : B) → Returns P (f b)) → Returns P (m >>= f)
    Returns-bind m f p = record {
      at = λ K h a e. Returns-continue K (run K h m) f a p (rw (run-bind K h m f) at e);
    }

module _ {A B : Type 0} {P : A → Type 0} {Q : B → Type 0} where
  use-continue :
      (K : Kernel) (r : Result B × List Call) (f : B → Program A) (a : A)
      → ((b : B) → r.0 ≡ ok b → Q b)
      → ((b : B) → Q b → Returns P (f b))
      → (continue K f r).0 ≡ ok a
      → P a
  use-continue K (ok b, h) f a q p e = (p b (q b refl)).at K h a e
  use-continue K (err x, h) f a q p e = cc

  -- What comes after may use what is known of the value.
  pub Returns-use :
      {m : Program B} {f : B → Program A}
      → Returns Q m
      → ((b : B) → Q b → Returns P (f b))
      → Returns P (m >>= f)
  Returns-use {m} {f} q p = record {
    at = λ K h a e. use-continue K (run K h m) f a (q.at K h) p (rw (run-bind K h m f) at e);
  }

pub Returns-scoped :
    {A : Type 0} {P : A → Type 0} (d : Program Unit) (m : Program A)
    → Returns P m
    → Returns P (scoped d m)
Returns-scoped d m p = record { at = λ K h a e. p.at K h a (scoped-ok K h d m a e) }

pub ruleset returns_rules = (Returns-ret, Returns-throw, Returns-gone, Returns-call, Returns-bind)
