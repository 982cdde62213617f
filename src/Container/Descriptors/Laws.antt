-- ===== src/Container/Descriptors/Laws.antt =====
-- Which descriptors `close_other_fds` closes.
use linglong_box.Prelude.{
  ℕ, zero, suc, Bool-cases, inl, inr, ◌+◌, ◌-◌, ◌<◌, ◌≤◌, ◌≡◌, refl, Bool, true, false, ◌&&◌, ◌||◌,
  not, List, [], ◌∷◌, ◌++◌, leb, ◌==◌, arith, All, append-nil, append_assoc, map, ap, sym, ◌∙◌,
}
use linglong_box.Kernel.{Call, close_range, Kernel, Outcome, done, failed}
use linglong_box.Program.{Program, sys, for_each, run, value_or, ◌>>◌}
use linglong_box.Result.{ok}
use linglong_box.Container.Descriptors.{insert, insert_all, max_uint, kept, ranges, close_other_fds}

unfoldable pub member : ℕ → List ℕ → Bool
member x [] = false
member x (y ∷ ys) = x == y || member x ys

unfoldable pub covered : ℕ → List (ℕ × ℕ) → Bool
covered f [] = false
covered f ((low, high) ∷ rs) = (leb low f && leb f high) || covered f rs

-- The list increases from above `a` up to `max_uint`, which it ends with.
abbrev Climbs : ℕ → List ℕ → Type 0
Climbs a [] = a ≡ max_uint
Climbs a (b ∷ bs) = (a < b) × Climbs b bs

member_below : (f a : ℕ) (bs : List ℕ) → Climbs a bs → f ≤ a → member f bs ≡ false
unfolding member
member_below f a [] c h = refl
member_below f a (b ∷ bs) (lt, c) h = ground (arith, member_below f b bs c)

covered_below : (f a : ℕ) (bs : List ℕ) → Climbs a bs → f ≤ a → covered f (ranges (a ∷ bs)) ≡ false
unfolding covered ranges
covered_below f a [] c h = refl
covered_below f a (b ∷ bs) (lt, c) h = ground (arith, covered_below f b bs c)

unfoldable pub isolated : ℕ → List ℕ → Bool
isolated f set = member (f - 1) set && member (f + 1) set

covered_climb :
    (f a : ℕ) (bs : List ℕ)
    → Climbs a bs
    → a < f
    → f < max_uint
    → covered f (ranges (a ∷ bs)) ≡ (not (member f (a ∷ bs)) && not (isolated f (a ∷ bs)))
unfolding covered ranges member isolated
covered_climb f a [] c h k = absurd (omega arith)
covered_climb f a (b ∷ bs) (lt, c) h k = ground (
  arith,
  covered_climb f b bs c,
  covered_below f b bs c,
  member_below f b bs c,
  member_below (f - 1) b bs c,
  member_below (f + 1) b bs c,
)

-- `insert` adds the value, and keeps the order.
member-insert : (f x : ℕ) (set : List ℕ) → member f (insert x set) ≡ (f == x || member f set)
unfolding member insert
member-insert f x [] = refl
member-insert f x (y ∷ ys) = ground (arith, member-insert f x ys)

member-insert_all :
    (f : ℕ) (xs set : List ℕ) → member f (insert_all xs set) ≡ (member f xs || member f set)
unfolding member insert_all
member-insert_all f [] set = refl
member-insert_all f (x ∷ xs) set =
    ground (arith, member-insert_all f xs (insert x set), member-insert f x set)

-- Strictly increasing, with every member above `a` and at most `max_uint`.
abbrev Increases : ℕ → List ℕ → Type 0
Increases a [] = a ≤ max_uint
Increases a (b ∷ bs) = (a < b) × Increases b bs

abbrev IsIncreasing : List ℕ → Type 0
IsIncreasing [] = Unit
IsIncreasing (b ∷ bs) = Increases b bs

insert-Increases :
    (a x : ℕ) (bs : List ℕ) → a < x → x ≤ max_uint → Increases a bs → Increases a (insert x bs)
unfolding insert
insert-Increases a x [] lt le h = (lt, le)
insert-Increases a x (b ∷ bs) lt le (p, h) = ground (arith, insert-Increases b x bs)

insert-IsIncreasing :
    (x : ℕ) (bs : List ℕ) → x ≤ max_uint → IsIncreasing bs → IsIncreasing (insert x bs)
unfolding insert
insert-IsIncreasing x [] le h = le
insert-IsIncreasing x (b ∷ bs) le h = ground (arith, insert-Increases b x bs)

insert_all-IsIncreasing :
    (xs bs : List ℕ)
    → All (λ x. x ≤ max_uint) xs
    → IsIncreasing bs
    → IsIncreasing (insert_all xs bs)
unfolding insert_all
insert_all-IsIncreasing [] bs _ h = h
insert_all-IsIncreasing (x ∷ xs) bs (le, les) h =
    insert_all-IsIncreasing xs (insert x bs) les (insert-IsIncreasing x bs le h)

le_top : (b : ℕ) (bs : List ℕ) → Increases b bs → b ≤ max_uint
le_top b [] h = h
le_top b (c ∷ bs) (lt, h) = omega (arith, le_top c bs h)

insert_top :
    (b : ℕ) (bs : List ℕ)
    → Increases b bs
    → (cs : List ℕ) × (insert max_uint (b ∷ bs) ≡ b ∷ cs) × Climbs b cs
unfolding insert
insert_top b [] h = elim (Bool-cases (b == max_uint)) [
  | inl e ↦ ([], ground arith, ground arith)
  | inr n ↦ (max_uint ∷ [], ground arith, ground arith)
]
insert_top b (c ∷ bs) (lt, h) =
    let (cs, e, climbs) = insert_top c bs h in (c ∷ cs, ground (arith, le_top c bs h), (lt, climbs))

kept_lem :
    (except : List ℕ)
    → All (λ x. x ≤ max_uint) except
    → (bs : List ℕ) × (kept except ≡ 0 ∷ bs) × Climbs 0 bs
unfolding kept
kept_lem except fits =
    let (rest, e, up) =
      insert_zero (insert_all except []) (insert_all-IsIncreasing except [] fits tt) in
    let (bs, e', climbs) = insert_top 0 rest up in (bs, rw e e', climbs)
  where
    insert_zero :
        (set : List ℕ)
        → IsIncreasing set
        → (rest : List ℕ) × (insert 0 set ≡ 0 ∷ rest) × Increases 0 rest
    insert_zero [] h = ([], unfold insert in refl, omega arith)
    insert_zero (b ∷ bs) h = elim (Bool-cases (b == 0)) [
      | inl e ↦ (bs, unfold insert in ground arith, at_zero b bs h e)
      | inr n ↦ (b ∷ bs, unfold insert in ground arith, (ground arith, h))
    ]
      where
        at_zero : (b : ℕ) (bs : List ℕ) → Increases b bs → (b == 0) ≡ true → Increases 0 bs
        at_zero zero bs h e = h
        at_zero (suc b) bs h e = absurd (ground arith)

-- The values that the loop keeps open: the given ones, 0 and `~0U`.
pub member-kept :
    (f : ℕ) (except : List ℕ)
    → member f (kept except) ≡ (f == max_uint || (f == 0 || member f except))
unfolding kept member
member-kept f except = rw (member-insert, member-insert, member-insert_all) (ground arith)

pub covered-kept :
    (f : ℕ) (except : List ℕ)
    → All (λ x. x ≤ max_uint) except
    → 0 < f
    → f < max_uint
    → covered f (ranges (kept except))
      ≡ (not (member f (kept except)) && not (isolated f (kept except)))
covered-kept f except fits pos small =
    let (bs, e, climbs) = kept_lem except fits in rw e (covered_climb f 0 bs climbs pos small)

-- Whether one of the calls closes the descriptor.
pub closes : ℕ → List Call → Bool
closes f [] = false
closes f (close_range low high ∷ calls) = (leb low f && leb f high) || closes f calls
closes f (_ ∷ calls) = closes f calls

abbrev pub ranges_of : List (ℕ × ℕ) → Program Unit
ranges_of = for_each (λ r. sys (close_range r.0 r.1) "close_range")

as_calls : List (ℕ × ℕ) → List Call
as_calls = map (λ r. close_range r.0 r.1)

closes-as_calls : (f : ℕ) (rs : List (ℕ × ℕ)) → closes f (as_calls rs) ≡ covered f rs
unfolding closes as_calls covered
closes-as_calls f [] = refl
closes-as_calls f ((low, high) ∷ rs) =
    ap (λ (b : Bool). (leb low f && leb f high) || b) (closes-as_calls f rs)

module _ (K : Kernel) where
  ranges_of_step :
      (h : List Call) (c : Call) (rs : List (ℕ × ℕ)) (r : Outcome Unit)
      → ((run K (h ++ c ∷ []) (ranges_of rs)).0 ≡ ok tt
          → (run K (h ++ c ∷ []) (ranges_of rs)).1 ≡ (h ++ c ∷ []) ++ as_calls rs)
      → (run K (h ++ c ∷ []) (value_or "close_range" r >> ranges_of rs)).0 ≡ ok tt
      → (run K (h ++ c ∷ []) (value_or "close_range" r >> ranges_of rs)).1 ≡ h ++ (c ∷ as_calls rs)
  ranges_of_step h c rs (done tt) ih e = ih e ∙ append_assoc h (c ∷ []) (as_calls rs)
  ranges_of_step h c rs (failed n) ih e = cc

  ranges_of_calls :
      (h : List Call) (rs : List (ℕ × ℕ))
      → (run K h (ranges_of rs)).0 ≡ ok tt
      → (run K h (ranges_of rs)).1 ≡ h ++ as_calls rs
  unfolding as_calls
  ranges_of_calls h [] e = sym (append-nil h)
  ranges_of_calls h ((low, high) ∷ rs) e =
      ranges_of_step h (close_range low high) rs (K h (close_range low high))
        (ranges_of_calls (h ++ close_range low high ∷ []) rs) e

  -- When the function returns, it has closed exactly those descriptors from 1 to `~0U - 1` that are
  -- not to be kept and that do not stand alone between two kept ones: a gap of one descriptor stays
  -- open.
  pub close_other_fds-closes :
      (except : List ℕ) (f : ℕ)
      → All (λ x. x ≤ max_uint) except
      → (run K [] (close_other_fds except)).0 ≡ ok tt
      → 0 < f
      → f < max_uint
      → closes f (run K [] (close_other_fds except)).1
        ≡ (not (member f (kept except)) && not (isolated f (kept except)))
  unfolding close_other_fds
  close_other_fds-closes except f fits returned pos small =
      ap (closes f) (ranges_of_calls [] (ranges (kept except)) returned)
      ∙ closes-as_calls f (ranges (kept except))
      ∙ covered-kept f except fits pos small
