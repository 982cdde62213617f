-- ===== src/Program/Traces/Follows.antt =====
-- Programs that show given events in order: all of them when they return, and a first part of them
-- otherwise.
use mathlib.Core.List.{map}
use mathlib.Core.Path.{subst}
use linglong_box.Prelude.{
  ◌≡◌, refl, sym, ◌∙◌, ap, Bool, true, false, if◌then◌else◌, List, [], ◌∷◌, ◌++◌, append_assoc,
  append-nil,
}
use linglong_box.Result.{Error, Result, ok, err}
use linglong_box.Kernel.{Call, Kernel}
use linglong_box.Program.{Program, ret, throw, ◌>>=◌, ◌>>◌, catch, on_throw, scoped, for_each, run}
use linglong_box.Program.Laws.{continue, run-bind, scoped-ok}
use linglong_box.Program.Traces.{
  seen, seen-nil, Always, Shows, Always-Shows, Always-ret, Always-throw,
}
use linglong_box.Program.Traces.Binds.{Shows-bind, Always-bind, seen-catch}

module _ {E : Type 0} where
  -- `xs` begins with `ys`.
  pub data Begins : List E → List E → Type 0 where
    with_rest : (ys rest : List E) → Begins (ys ++ rest) ys

  pub begins-whole : (xs : List E) → Begins xs xs
  begins-whole xs = subst (λ (l : List E). Begins l xs) (append-nil xs) (with_rest xs [])

  pub begins-more : (xs ys zs : List E) → Begins ys zs → Begins (xs ++ ys) (xs ++ zs)
  begins-more xs _ _ (with_rest ys rest) =
      subst (λ (l : List E). Begins l (xs ++ ys)) (append_assoc xs ys rest)
        (with_rest (xs ++ ys) rest)

  pub begins-append : (xs ys zs : List E) → Begins xs zs → Begins (xs ++ ys) zs
  begins-append _ ys _ (with_rest zs rest) =
      subst (λ (l : List E). Begins l zs) (sym (append_assoc zs rest ys))
        (with_rest zs (rest ++ ys))

module _ {E : Type 0} (see : Call → List E) where
  -- Whatever a run shows is a first part of `xs`.
  pub record Within {A : Type 0} (m : Program A) (xs : List E) : Type 0 where
    pub at :
        (K : Kernel) (h : List Call)
        → (ys : List E) × Begins xs ys × (seen see (run K h m).1 ≡ seen see h ++ ys)

  pub record Follows {A : Type 0} (m : Program A) (xs : List E) : Type 0 where
    pub returns : Shows see m xs
    pub always : Within m xs

  module _ {A : Type 0} where
    pub Follows-Always : {m : Program A} {xs : List E} → Always see m xs → Follows m xs
    Follows-Always {xs = xs} s = record {
      returns = Always-Shows see s;
      always = record { at = λ K h. (xs, begins-whole xs, s.at K h) };
    }

    pub Follows-throw : (e : Error) (xs : List E) → Follows {A = A} (throw e) xs
    Follows-throw e xs = record {
      returns = record { at = λ K h a p. cc };
      always = record { at = λ K h. ([], with_rest [] xs, sym (append-nil (seen see h))) };
    }

    pub Follows-if :
        (b : Bool) {m n : Program A} {xs : List E}
        → Follows m xs
        → Follows n xs
        → Follows (if b then m else n) xs
    Follows-if true p q = p
    Follows-if false p q = q

  module _ {A B : Type 0} where
    continue-Within :
        (K : Kernel) (h : List Call) (r : Result A × List Call) (f : A → Program B) (xs ys : List E)
        → ((a : A) → r.0 ≡ ok a → seen see r.1 ≡ seen see h ++ xs)
        → (zs : List E) × Begins xs zs × (seen see r.1 ≡ seen see h ++ zs)
        → ((a : A) → Within (f a) ys)
        → (zs : List E) × Begins (xs ++ ys) zs × (seen see (continue K f r).1 ≡ seen see h ++ zs)
    continue-Within K h (ok a, g) f xs ys first _ next =
        let (zs, begins, shown) = (next a).at K g in
        (
          xs ++ zs,
          begins-more xs ys zs begins,
          shown ∙ ap (λ (l : List E). l ++ zs) (first a refl) ∙ append_assoc (seen see h) xs zs,
        )
    continue-Within K h (err x, g) f xs ys _ (zs, begins, shown) next =
        (zs, begins-append xs ys zs begins, shown)

    pub Follows-bind :
        {m : Program A} {f : A → Program B} {xs ys : List E}
        → Follows m xs
        → ((a : A) → Follows (f a) ys)
        → Follows (m >>= f) (xs ++ ys)
    Follows-bind {m} {f} {xs} {ys} p q = record {
      returns = Shows-bind see p.returns λ a. (q a).returns;
      always = record {
        at = λ K h.
            subst
              (λ (r : Result B × List Call).
                (zs : List E) × Begins (xs ++ ys) zs × (seen see r.1 ≡ seen see h ++ zs))
              (sym (run-bind K h m f))
              (continue-Within K h (run K h m) f xs ys (p.returns.at K h) (p.always.at K h)
                (λ a. (q a).always));
      };
    }

    -- A part that shows nothing, before the rest.
    pub Follows-after :
        {m : Program A} {f : A → Program B} {ys : List E}
        → Always see m []
        → ((a : A) → Follows (f a) ys)
        → Follows (m >>= f) ys
    Follows-after p q = Follows-bind (Follows-Always p) q

    -- A part that shows nothing, after the rest.
    pub Follows-before :
        {m : Program A} {f : A → Program B} {xs : List E}
        → Follows m xs
        → ((a : A) → Always see (f a) [])
        → Follows (m >>= f) xs
    Follows-before {m} {f} {xs} p q =
        subst (Follows (m >>= f)) (append-nil xs) (Follows-bind p λ a. Follows-Always (q a))

  pub Within-catch :
      {A : Type 0} {m : Program A} {f : Error → Program A} {xs : List E}
      → Within m xs
      → ((e : Error) → Always see (f e) [])
      → Within (catch m f) xs
  Within-catch {m = m} {f = f} p quiet = record {
    at = λ K h.
        let (ys, begins, shown) = p.at K h in (ys, begins, seen-catch see K h m f quiet ∙ shown);
  }

  module _ {A : Type 0} {d : Program Unit} (quiet : Always see d []) where
    destroyed-seen :
        (K : Kernel) (r : Result A × List Call)
        → seen see (continue K (λ a. d >> ret a) r).1 ≡ seen see r.1
    destroyed-seen K (ok a, h) =
        (Always-bind see quiet λ _. Always-ret see a).at K h ∙ append-nil (seen see h)
    destroyed-seen K (err x, h) = refl

    scoped-seen :
        (K : Kernel) (h : List Call) (m : Program A)
        → seen see (run K h (scoped d m)).1 ≡ seen see (run K h m).1
    scoped-seen K h m =
        ap (λ (r : Result A × List Call). seen see r.1) (run-bind K h (on_throw d m) _)
        ∙ destroyed-seen K (run K h (on_throw d m))
        ∙ seen-catch see K h m _ (λ e. Always-bind see quiet λ _. Always-throw see e)

    -- Leaving a scope shows nothing more, if the destructor shows nothing.
    pub Follows-scoped : {m : Program A} {xs : List E} → Follows m xs → Follows (scoped d m) xs
    Follows-scoped {m} p = record {
      returns = record {
        at = λ K h a e. scoped-seen K h m ∙ p.returns.at K h a (scoped-ok K h d m a e);
      };
      always = record {
        at = λ K h.
            let (ys, begins, shown) = p.always.at K h in (ys, begins, scoped-seen K h m ∙ shown);
      };
    }

  pub Within-begins :
      {A : Type 0} (m : Program A) (xs : List E)
      → Within m xs
      → (K : Kernel) → Begins xs (seen see (run K [] m).1)
  Within-begins m xs p K =
      let (ys, begins, shown) = p.at K [] in
      subst (Begins xs) (sym (shown ∙ ap (λ (l : List E). l ++ ys) (seen-nil see))) begins

  -- A first part that shows nothing and returns `a`, before a part that follows `xs`.
  pub begins-after :
      {A B : Type 0} (K : Kernel) (m : Program A) (f : A → Program B) (a : A) (xs : List E)
      → Always see m []
      → (run K [] m).0 ≡ ok a
      → Within (f a) xs
      → Begins xs (seen see (run K [] (m >>= f)).1)
  begins-after K m f a xs quiet e p =
      let h : List Call = (run K [] m).1 in
      let none_shown : seen see h ≡ [] = quiet.at K [] ∙ append-nil (seen see []) ∙ seen-nil see in
      let (ys, begins, shown) = p.at K h in
      subst (Begins xs)
        (sym (
          ap (λ (r : Result _ × List Call). seen see r.1) (run-bind K [] m f)
          ∙ ap (λ (r : Result _). seen see (continue K f (r, h)).1) e
          ∙ shown
          ∙ ap (λ (l : List E). l ++ ys) none_shown))
        begins

  module _ {A : Type 0} where
    pub Follows-for_each :
        {f : A → Program Unit} {g : A → E}
        → ((a : A) → Follows (f a) (g a ∷ []))
        → (xs : List A) → Follows (for_each f xs) (map g xs)
    Follows-for_each body [] = Follows-Always record { at = λ K h. sym (append-nil (seen see h)) }
    Follows-for_each body (x ∷ xs) = Follows-bind (body x) λ _. Follows-for_each body xs
