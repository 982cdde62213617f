-- ===== src/Config/Parser/Environment.antt =====
-- The environment of a process or a hook: from the texts of the configuration to those that it is
-- executed with.
use Prim.Native.Nat.{Ordering}
use Prim.Native.Char.{Char, code}
use Prim.Native.String.{compare}
use mathlib.Core.Path.{subst}
use mathlib.Core.List.{Mem, mem-cons_self, mem-cons_of_mem}
use text.Mathlib.TextEquality.{Char-path}
use text.Mathlib.TextLemmas.{nil-append, cons-append}
use linglong_box.Prelude.{
  ◌≡◌, refl, sym, ap, ◌∙◌, String, ◌<>◌, true, false, ◌==◌, ==_iff, Option, none, some, List, [],
  ◌∷◌, All, inl, inr, Bool-cases, Option-cases,
}
use linglong_box.Result.{ok}
use linglong_box.Config.Parser.Entries.{assign, split_equals, env_of}
use linglong_box.Container.Hooks.{assignments}

abbrev assignment : String × String → String
assignment e = e.0 <> ("=" <> e.1)

split-empty : split_equals "" ≡ none
unfolding split_equals
split-empty = refl

-- What `split_equals` makes of the rest of a text behind a byte that is no `=`.
abbrev behind : Char → Option (String × String) → Option (String × String)
behind c none = none
behind c (some p) = some (String.◌∷◌ c p.0, p.1)

split-no_equals :
    (c : Char) (s : String)
    → (code c == b'=') ≡ false
    → split_equals (String.◌∷◌ c s) ≡ behind c (split_equals s)
unfolding split_equals
split-no_equals c s f = elim (Option-cases (split_equals s)) [
  | inl e ↦ rw (split_equals, f, e) refl
  | inr (p, e) ↦ rw (split_equals, f, e) refl
]

split-equals_sign :
    (c : Char) (s : String) → (code c == b'=') ≡ true → split_equals (String.◌∷◌ c s) ≡ some ("", s)
unfolding split_equals
split-equals_sign c s t = rw (split_equals, t) refl

assignment-cons :
    (c : Char) (p : String × String)
    → assignment (String.◌∷◌ c p.0, p.1) ≡ String.◌∷◌ c (assignment p)
assignment-cons c p = cons-append c p.0 ("=" <> p.1)

equals_first :
    (c : Char) (s : String) → (code c == b'=') ≡ true → assignment ("", s) ≡ String.◌∷◌ c s
equals_first c s t =
    let same : c ≡ "=" = Char-path c "=" ((==_iff (code c) b'=').0 t) in
    nil-append ("=" <> s)
    ∙ (cons-append "=" "" s
        ∙ (ap (λ x. String.◌∷◌ "=" x) (nil-append s) ∙ ap (λ x. String.◌∷◌ x s) (sym same)))

-- Splitting a text at the first `=` loses nothing.
split_equals-assignment :
    (s : String) (p : String × String) → split_equals s ≡ some p → assignment p ≡ s
split_equals-assignment String.[] p e =
    absurd (let none_first : split_equals "" ≡ none = split-empty in cc)
split_equals-assignment (String.◌∷◌ c s) p e = elim (Bool-cases (code c == b'=')) [
  | inl t ↦
      let same : ("", s) ≡ p = let split = split-equals_sign c s t in cc in
      ap assignment (sym same) ∙ equals_first c s t
  | inr f ↦ elim (Option-cases (split_equals s)) [
    | inl missing ↦ absurd (let split = split-no_equals c s f ∙ ap (behind c) missing in cc)
    | inr (q, found) ↦
        let split = split-no_equals c s f ∙ ap (behind c) found in
        let same : (String.◌∷◌ c q.0, q.1) ≡ p = cc in
        ap assignment (sym same)
        ∙ (assignment-cons c q ∙ ap (λ x. String.◌∷◌ c x) (split_equals-assignment s q found))
  ]
]

module _ (P : String → Type 0) where
  All-assign :
      (k v : String) (env : List (String × String))
      → P (assignment (k, v))
      → All P (assignments env)
      → All P (assignments (assign k v env))
  unfolding assign assignments
  All-assign k v [] p all = (p, tt)
  All-assign k v ((l, w) ∷ env) p (q, all) =
      elim (compare k l)
        as (λ o. All P (
          assignments (elim o [
            | Ordering.lt ↦ (k, v) ∷ (l, w) ∷ env
            | Ordering.eq ↦ (k, v) ∷ env
            | Ordering.gt ↦ (l, w) ∷ assign k v env
          ]))) [
            | Ordering.lt ↦ (p, (q, all))
            | Ordering.eq ↦ (p, all)
            | Ordering.gt ↦ (q, All-assign k v env p all)
          ]

  All-env_of :
      (entries : List String) (env result : List (String × String))
      → All P entries
      → All P (assignments env)
      → env_of entries env ≡ ok result
      → All P (assignments result)
  unfolding env_of
  All-env_of [] env result _ all e =
      subst (λ (r : List (String × String)). All P (assignments r))
        (let same : env ≡ result = cc in same) all
  All-env_of (entry ∷ entries) env result (p, ps) all e = elim (Option-cases (split_equals entry)) [
    | inl missing ↦ absurd (let bad = rw (env_of, missing) at e in cc)
    | inr (q, found) ↦
        All-env_of entries (assign q.0 q.1 env) result ps
          (All-assign q.0 q.1 env (subst P (sym (split_equals-assignment entry q found)) p) all)
          (rw (env_of, found) at e)
  ]

All-weaken :
    {P Q : String → Type 0} (xs : List String) → ((a : String) → P a → Q a) → All P xs → All Q xs
All-weaken [] f all = tt
All-weaken (x ∷ xs) f (p, all) = (f x p, All-weaken xs f all)

All-Mem : (xs : List String) → All (λ a. Mem a xs) xs
All-Mem [] = tt
All-Mem (x ∷ xs) = (mem-cons_self, All-weaken xs (λ a m. mem-cons_of_mem x m) (All-Mem xs))

nothing_assigned : (P : String → Type 0) → All P (assignments [])
unfolding assignments
nothing_assigned P = tt

-- Every text of the environment that a process or a hook is executed with is an entry of the array in
-- the configuration, where the parser accepts the array.
pub env_of-assignments :
    (entries : List String) (env : List (String × String))
    → env_of entries [] ≡ ok env
    → All (λ a. Mem a entries) (assignments env)
env_of-assignments entries env e =
    All-env_of (λ a. Mem a entries) entries [] env (All-Mem entries) (nothing_assigned _) e
