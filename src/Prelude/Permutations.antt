-- ===== src/Prelude/Permutations.antt =====
-- Lists in another order.
use mathlib.Core.List.{Permᴰ}
use mathlib.Core.List.{List, [], ◌∷◌, map}
use mathlib.Core.Path.{◌≡◌, refl, sym, subst}
use linglong_box.Prelude.Lists.{All}

module _ {ℓ κ} {A : Type ℓ} (P : A → Type κ) where
  pub All-perm : {xs ys : List A} → Permᴰ xs ys → All P ys → All P xs
  All-perm Permᴰ.nil all = tt
  All-perm (Permᴰ.cons e p) all = (subst P (sym e) all.0, All-perm p all.1)
  All-perm (Permᴰ.swap e f) all = (subst P (sym e) all.1.0, (subst P (sym f) all.0, all.1.1))
  All-perm (Permᴰ.trans p q) all = All-perm p (All-perm q all)

module _ {ℓ κ} {A : Type ℓ} {B : Type κ} (f : A → B) where
  -- A permutation of an image is the image of a permutation.
  pub perm-map :
      {xs ys : List B}
      → Permᴰ xs ys
      → (zs : List A) → ys ≡ map f zs
      → (ws : List A) × (xs ≡ map f ws) × Permᴰ ws zs
  perm-map Permᴰ.nil [] q = ([], refl, Permᴰ.nil)
  perm-map Permᴰ.nil (z ∷ zs) q = cc
  perm-map (Permᴰ.cons e p) [] q = cc
  perm-map (Permᴰ.cons e p) (z ∷ zs) q =
      let (ws, same, order) = perm-map p zs cc in (z ∷ ws, cc, Permᴰ.cons refl order)
  perm-map (Permᴰ.swap e g) [] q = cc
  perm-map (Permᴰ.swap e g) (z ∷ []) q = cc
  perm-map (Permᴰ.swap e g) (y ∷ z ∷ zs) q = (z ∷ y ∷ zs, cc, Permᴰ.swap refl refl)
  perm-map (Permᴰ.trans p r) zs q =
      let (ws, same, order) = perm-map r zs q in
      let (vs, first, before) = perm-map p ws same in (vs, first, Permᴰ.trans before order)
