-- ===== src/Program/Traces/Binds.antt =====
-- What programs in sequence, handlers and loops show.
use mathlib.Core.List.{map}
use mathlib.Core.Path.{subst}
use linglong_box.Prelude.{
  String, ◌≡◌, refl, sym, ◌∙◌, ap, List, [], ◌∷◌, ◌++◌, append_assoc, append-nil,
}
use linglong_box.Result.{Error, Result, ok, err, system_error}
use linglong_box.Kernel.{Call, Reply, Kernel, Outcome, done, failed}
use linglong_box.Program.{
  Program, ret, throw, call, gone, ◌>>=◌, catch, for_each, run, value_or, sys, of_result,
}
use linglong_box.Program.Laws.{continue, run-bind}
use linglong_box.Program.Traces.{
  seen, Always, Shows, Always-Shows, Always-ret, Always-throw, Always-call,
}

module _ {E : Type 0} (see : Call → List E) where
  module _ {A B : Type 0} where
    -- After a run that shows `xs` comes one that shows `ys` when there is a value to go on from.
    continue-Shows :
        (K : Kernel) (h : List Call) (r : Result A × List Call) (f : A → Program B) (b : B)
        (xs ys : List E)
        → ((a : A) → r.0 ≡ ok a → seen see r.1 ≡ seen see h ++ xs)
        → ((a : A) → Shows see (f a) ys)
        → (continue K f r).0 ≡ ok b
        → seen see (continue K f r).1 ≡ seen see h ++ (xs ++ ys)
    continue-Shows K h (ok a, g) f b xs ys first next e =
        (next a).at K g b e
        ∙ ap (λ (l : List E). l ++ ys) (first a refl)
        ∙ append_assoc (seen see h) xs ys
    continue-Shows K h (err x, g) f b xs ys first next e = cc

    pub Shows-bind :
        {m : Program A} {f : A → Program B} {xs ys : List E}
        → Shows see m xs
        → ((a : A) → Shows see (f a) ys)
        → Shows see (m >>= f) (xs ++ ys)
    Shows-bind {m} {f} {xs} {ys} first next = record {
      at = λ K h b e.
          ap (λ (r : Result B × List Call). seen see r.1) (run-bind K h m f)
          ∙ continue-Shows K h (run K h m) f b xs ys (first.at K h) next
              (sym (ap (λ (r : Result B × List Call). r.0) (run-bind K h m f)) ∙ e);
    }

    continue-Always :
        (K : Kernel) (h : List Call) (r : Result A × List Call) (f : A → Program B) (xs : List E)
        → seen see r.1 ≡ seen see h ++ xs
        → ((a : A) → Always see (f a) [])
        → seen see (continue K f r).1 ≡ seen see h ++ xs
    continue-Always K h (ok a, g) f xs first next =
        (next a).at K g ∙ append-nil (seen see g) ∙ first
    continue-Always K h (err x, g) f xs first next = first

    pub Always-bind :
        {m : Program A} {f : A → Program B} {xs : List E}
        → Always see m xs
        → ((a : A) → Always see (f a) [])
        → Always see (m >>= f) xs
    Always-bind {m} {f} {xs} first next = record {
      at = λ K h.
          ap (λ (r : Result B × List Call). seen see r.1) (run-bind K h m f)
          ∙ continue-Always K h (run K h m) f xs (first.at K h) next;
    }

  module _ {A : Type 0} where
    -- A handler that shows nothing adds nothing.
    pub seen-catch :
        (K : Kernel) (g : List Call) (m : Program A) (f : Error → Program A)
        → ((e : Error) → Always see (f e) [])
        → seen see (run K g (catch m f)).1 ≡ seen see (run K g m).1
    seen-catch K g (ret a) f quiet = refl
    seen-catch K g (throw e) f quiet = (quiet e).at K g ∙ append-nil (seen see g)
    seen-catch K g gone f quiet = refl
    seen-catch K g (call c k) f quiet = seen-catch K (g ++ c ∷ []) (k (K g c)) f quiet

    pub Always-catch :
        {m : Program A} {f : Error → Program A} {xs : List E}
        → Always see m xs
        → ((e : Error) → Always see (f e) [])
        → Always see (catch m f) xs
    Always-catch {m} {f} first quiet = record {
      at = λ K g. seen-catch K g m f quiet ∙ first.at K g;
    }

    pub Always-quiet :
        {c : Call} {k : Reply c → Program A} {xs : List E}
        → see c ≡ []
        → ((r : Reply c) → Always see (k r) xs)
        → Always see (call c k) xs
    Always-quiet {c = c} {k = k} {xs = xs} e s =
        subst (λ (l : List E). Always see (call c k) (l ++ xs)) e (Always-call see s)

    pub Always-of_result : (r : Result A) → Always see (of_result r) []
    Always-of_result (ok a) = Always-ret see a
    Always-of_result (err e) = Always-throw see e

  pub Always-value_or :
      {A : Type 0} (what : String) (r : Outcome A) → Always see (value_or what r) []
  Always-value_or what (done v) = Always-ret see v
  Always-value_or what (failed n) = Always-throw see (system_error n what)

  pub Always-sys : (c : Call) (what : String) → Always see (sys c what) (see c)
  Always-sys c what =
      subst (λ (l : List E). Always see (sys c what) l) (append-nil (see c))
        (Always-call see (Always-value_or what))

  pub quiet-sys : (c : Call) (what : String) → see c ≡ [] → Always see (sys c what) []
  quiet-sys c what e = subst (λ (l : List E). Always see (sys c what) l) e (Always-sys c what)

  module _ {A : Type 0} where
    -- A loop that returns shows what its bodies show, in order.
    pub Shows-for_each :
        {f : A → Program Unit} {g : A → E}
        → ((a : A) → Shows see (f a) (g a ∷ []))
        → (xs : List A) → Shows see (for_each f xs) (map g xs)
    Shows-for_each body [] = Always-Shows see (Always-ret see tt)
    Shows-for_each body (x ∷ xs) = Shows-bind (body x) λ _. Shows-for_each body xs

    pub quiet-for_each :
        {f : A → Program Unit}
        → ((a : A) → Always see (f a) [])
        → (xs : List A) → Always see (for_each f xs) []
    quiet-for_each body [] = Always-ret see tt
    quiet-for_each body (x ∷ xs) = Always-bind (body x) λ _. quiet-for_each body xs
