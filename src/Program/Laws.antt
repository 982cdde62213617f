-- ===== src/Program/Laws.antt =====
-- How runs of programs compose.
use linglong_box.Prelude.{◌≡◌, refl, sym, ap, ◌∙◌, List, [], ◌∷◌, ◌++◌}
use linglong_box.Result.{Error, Result, ok, err}
use linglong_box.Kernel.{Call, Reply, Kernel}
use linglong_box.Program.{
  Program, ret, throw, call, gone, ◌>>=◌, ◌>>◌, catch, on_throw, scoped, run,
}

module _ {A B : Type 0} where
  abbrev pub continue : Kernel → (A → Program B) → Result A × List Call → Result B × List Call
  continue K f (ok a, h) = run K h (f a)
  continue K f (err e, h) = (err e, h)

  pub run-bind :
      (K : Kernel) (h : List Call) (m : Program A) (f : A → Program B)
      → run K h (m >>= f) ≡ continue K f (run K h m)
  run-bind K h (ret a) f = refl
  run-bind K h (throw e) f = refl
  run-bind K h gone f = refl
  run-bind K h (call c k) f = run-bind K (h ++ c ∷ []) (k (K h c)) f

module _ {A : Type 0} where
  pub run-call :
      (K : Kernel) (h : List Call) (c : Call) (k : Reply c → Program A) (r : Reply c)
      → K h c ≡ r
      → run K h (call c k) ≡ run K (h ++ c ∷ []) (k r)
  run-call K h c k r e = ap (λ (x : Reply c). run K (h ++ c ∷ []) (k x)) e

pub bind-ok :
    {A B : Type 0} (K : Kernel) (h : List Call) (m : Program A) (f : A → Program B) (a : A)
    → (run K h m).0 ≡ ok a
    → (run K h (m >>= f)).0 ≡ (run K (run K h m).1 (f a)).0
bind-ok K h m f a e =
    ap (λ (r : Result _ × List Call). r.0) (run-bind K h m f)
    ∙ ap (λ (r : Result _). (continue K f (r, (run K h m).1)).0) e

pub map-ok :
    {A B : Type 0} (K : Kernel) (h : List Call) (m : Program A) (f : A → B) (a : A)
    → (run K h m).0 ≡ ok a
    → (run K h (m >>= λ x. ret (f x))).0 ≡ ok (f a)
map-ok K h m f a e = bind-ok K h m (λ x. ret (f x)) a e

pub catch-ok :
    {A : Type 0} (K : Kernel) (h : List Call) (m : Program A) (f : Error → Program A) (a : A)
    → (run K h m).0 ≡ ok a
    → (run K h (catch m f)).0 ≡ ok a
catch-ok K h (ret b) f a e = e
catch-ok K h (throw x) f a e = cc
catch-ok K h (call c k) f a e = catch-ok K (h ++ c ∷ []) (k (K h c)) f a e
catch-ok K h gone f a e = e

module _ {A : Type 0} (K : Kernel) where
  thrown-ok :
      (r : Result Unit × List Call) (e : Error) (a : A)
      → (continue K (λ _. throw e) r).0 ≡ ok a
      → err e ≡ ok a
  thrown-ok (ok _, h) e a p = p
  thrown-ok (err x, h) e a p = cc

  kept-ok :
      (r : Result Unit × List Call) (b a : A) → (continue K (λ _. ret b) r).0 ≡ ok a → ok b ≡ ok a
  kept-ok (ok _, h) b a p = p
  kept-ok (err x, h) b a p = cc

  on_throw-ok :
      (h : List Call) (d : Program Unit) (m : Program A) (a : A)
      → (run K h (on_throw d m)).0 ≡ ok a
      → (run K h m).0 ≡ ok a
  on_throw-ok h d (ret b) a e = e
  on_throw-ok h d gone a e = e
  on_throw-ok h d (call c k) a e = on_throw-ok (h ++ c ∷ []) d (k (K h c)) a e
  on_throw-ok h d (throw x) a e =
      thrown-ok (run K h d) x a
        (ap (λ (r : Result A × List Call). r.0) (sym (run-bind K h d _)) ∙ e)

  destroyed-ok :
      (r : Result A × List Call) (d : Program Unit) (a : A)
      → (continue K (λ b. d >> ret b) r).0 ≡ ok a
      → r.0 ≡ ok a
  destroyed-ok (ok b, h) d a p =
      kept-ok (run K h d) b a (ap (λ (r : Result A × List Call). r.0) (sym (run-bind K h d _)) ∙ p)
  destroyed-ok (err x, h) d a p = cc

  -- A scope gives what the code in it gives.
  pub scoped-ok :
      (h : List Call) (d : Program Unit) (m : Program A) (a : A)
      → (run K h (scoped d m)).0 ≡ ok a
      → (run K h m).0 ≡ ok a
  scoped-ok h d m a e = on_throw-ok h d m a (
      destroyed-ok (run K h (on_throw d m)) d a
        (ap (λ (r : Result A × List Call). r.0) (sym (run-bind K h (on_throw d m) _)) ∙ e))
