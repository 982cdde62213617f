-- ===== src/Program/Completes.antt =====
-- What a run that returns has done by its end: rules for each way to build a program.
use mathlib.Core.Path.{subst}
use linglong_box.Prelude.{◌≡◌, refl, sym, ◌∙◌, ap, List, [], ◌∷◌, ◌++◌, append_assoc, append-nil}
use linglong_box.Kernel.{Call, Kernel}
use linglong_box.Program.{Program, ret, throw, call, gone, ◌>>=◌, ◌>>◌, on_throw, scoped, run}
use linglong_box.Program.Laws.{continue, run-bind}
use linglong_box.Result.{Result, ok, err}

-- Every run that returns has made calls and gives a value for which this holds.
pub record Completes {A : Type 0} (P : Kernel → List Call → A → Type 0) (m : Program A)
    : Type 0 where
  pub at : (K : Kernel) (h : List Call) (a : A) → (run K h m).0 ≡ ok a → P K (run K h m).1 a

-- A run makes its calls behind those that are there.
pub run_extends :
    {A : Type 0} (K : Kernel) (h : List Call) (m : Program A)
    → (more : List Call) × ((run K h m).1 ≡ h ++ more)
run_extends K h (ret a) = ([], sym (append-nil h))
run_extends K h (throw e) = ([], sym (append-nil h))
run_extends K h gone = ([], sym (append-nil h))
run_extends K h (call c k) =
    let (more, e) = run_extends K (h ++ c ∷ []) (k (K h c)) in
    (c ∷ more, e ∙ append_assoc h (c ∷ []) more)

module _ {A B : Type 0} (K : Kernel) where
  continue-returned :
      (r : Result B × List Call) (f : B → Program A) (a : A)
      → (continue K f r).0 ≡ ok a
      → (b : B) × (g : List Call) × (r ≡ (ok b, g)) × (continue K f r ≡ run K g (f b))
  continue-returned (ok b, g) f a e = (b, g, refl, refl)
  continue-returned (err x, g) f a e = absurd cc

  -- If two parts return, so does the first, and the second is run behind it.
  pub bind-returned :
      (h : List Call) (m : Program B) (f : B → Program A) (a : A)
      → (run K h (m >>= f)).0 ≡ ok a
      → (b : B) × (g : List Call) × (run K h m ≡ (ok b, g)) × (run K h (m >>= f) ≡ run K g (f b))
  bind-returned h m f a e =
      let same = run-bind K h m f in
      let (b, g, first, second) =
        continue-returned (run K h m) f a (ap (λ (r : Result A × List Call). r.0) (sym same) ∙ e) in
      (b, g, first, same ∙ second)

module _ {A : Type 0} (K : Kernel) where
  -- A handler that throws has not run where the whole returns.
  on_throw-returned :
      (h : List Call) (d : Program Unit) (m : Program A) (a : A) (g : List Call)
      → run K h (on_throw d m) ≡ (ok a, g)
      → run K h m ≡ (ok a, g)
  on_throw-returned h d (ret b) a g e = e
  on_throw-returned h d gone a g e = e
  on_throw-returned h d (call c k) a g e = on_throw-returned (h ++ c ∷ []) d (k (K h c)) a g e
  on_throw-returned h d (throw x) a g e =
      let returned : (run K h (d >> throw x)).0 ≡ ok a = ap (λ (r : Result A × List Call). r.0) e in
      let (_, last, _, same) = bind-returned K h d (λ _. throw x) a returned in
      let thrown : err x ≡ ok a = ap (λ (r : Result A × List Call). r.0) (sym same) ∙ returned in
      absurd cc

  -- A scope that returns gives what the code in it gives, and the destructor's calls stand last.
  scoped-returned :
      (h : List Call) (d : Program Unit) (m : Program A) (a : A)
      → (run K h (scoped d m)).0 ≡ ok a
      → (g more : List Call) × (run K h m ≡ (ok a, g)) × ((run K h (scoped d m)).1 ≡ g ++ more)
  scoped-returned h d m a e =
      let (b, g, inside, left) = bind-returned K h (on_throw d m) (λ x. d >> ret x) a e in
      let (_, last, _, ended) =
        bind-returned K g d (λ _. ret b) a
          (ap (λ (r : Result A × List Call). r.0) (sym left) ∙ e) in
      let kept : ok b ≡ ok a = ap (λ (r : Result A × List Call). r.0) (sym (left ∙ ended)) ∙ e in
      let (more, extended) = run_extends K g (d >> ret b) in
      (
        g,
        more,
        on_throw-returned h d m a g (inside ∙ ap (λ (r : Result A). (r, g)) kept),
        ap (λ (r : Result A × List Call). r.1) left ∙ extended,
      )

module _ {A : Type 0} {P : Kernel → List Call → A → Type 0} where
  pub Completes-bind :
      {B : Type 0} (m : Program B) (f : B → Program A)
      → ((b : B) → Completes P (f b))
      → Completes P (m >>= f)
  Completes-bind m f p = record {
    at = λ K h a e.
        let (b, g, _, same) = bind-returned K h m f a e in
        subst (λ (r : Result A × List Call). P K r.1 a) (sym same)
          ((p b).at K g a (ap (λ (r : Result A × List Call). r.0) (sym same) ∙ e));
  }

  -- For what stays true when more calls are made.
  pub Completes-scoped :
      ((K : Kernel) (g more : List Call) (a : A) → P K g a → P K (g ++ more) a)
      → (d : Program Unit) (m : Program A) → Completes P m
      → Completes P (scoped d m)
  Completes-scoped stays d m p = record {
    at = λ K h a e.
        let (g, more, inside, calls) = scoped-returned K h d m a e in
        let first : P K g a =
          subst (λ (r : Result A × List Call). P K r.1 a) inside
            (p.at K h a (ap (λ (r : Result A × List Call). r.0) inside)) in
        subst (λ (l : List Call). P K l a) (sym calls) (stays K g more a first);
  }
