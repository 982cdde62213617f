-- ===== src/Command/Laws.antt =====
-- Finding the container that a command names.
use Prim.Native.Nat.{Ordering}
use Prim.Native.String.{compare}
use mathlib.Core.Path.{subst}
use text.Mathlib.TextEquality.{path_by_compare}
use linglong_box.Prelude.{
  ◌≡◌, refl, sym, ap, ◌∙◌, inl, inr, String, Bool, true, false, ◌||◌, List, [], ◌∷◌, All,
  Bool-cases, str_eq, eq_iff, if◌then◌else◌,
}
use linglong_box.Program.{Program, ret, throw}
use linglong_box.Result.{runtime_error}
use linglong_box.Status.{StatusDirectory}
use linglong_box.Runtime.{ContainerRef, insert, refs_of}
use linglong_box.Command.{find}

abbrev Refs : Type 0
Refs = List (String × ContainerRef)

module _ (d : StatusDirectory) where
  abbrev ref : String → ContainerRef
  ref id = record { id = id; status_dir = d }

  -- Each entry is the reference that its key names.
  abbrev IsKeyed : Refs → Type 0
  IsKeyed refs = All (λ e. e.1 ≡ ref e.0) refs

  insert-IsKeyed : (id : String) (refs : Refs) → IsKeyed refs → IsKeyed (insert id (ref id) refs)
  unfolding insert
  insert-IsKeyed id [] _ = (refl, tt)
  insert-IsKeyed id ((k, c) ∷ rest) (keyed, more) =
      elim (compare id k)
        as (λ o. IsKeyed (elim o [
          | Ordering.lt ↦ (id, ref id) ∷ (k, c) ∷ rest
          | Ordering.eq ↦ (k, c) ∷ rest
          | Ordering.gt ↦ (k, c) ∷ insert id (ref id) rest
        ])) [
          | Ordering.lt ↦ (refl, (keyed, more))
          | Ordering.eq ↦ (keyed, more)
          | Ordering.gt ↦ (keyed, insert-IsKeyed id rest more)
        ]

  module _ (key : String) where
    abbrev Found : String → Program ContainerRef → Program ContainerRef → Type 0
    Found id got otherwise = got ≡ (if str_eq id key then ret (ref key) else otherwise)

    either : (x y : Program ContainerRef) (b : Bool) → x ≡ y → x ≡ (if b then y else x)
    either x y true e = e
    either x y false e = refl

    here :
        (id : String) (c : ContainerRef) (m : Program ContainerRef)
        → c ≡ ref id
        → Found id (if str_eq id key then ret c else m) m
    here id c m keyed = elim (Bool-cases (str_eq id key)) [
      | inl same ↦ rw same (ap ret (keyed ∙ ap ref ((eq_iff id key).0 same)))
      | inr other ↦ rw other refl
    ]

    behind :
        (id k : String) (c : ContainerRef) (got m : Program ContainerRef)
        → c ≡ ref k
        → Found id got m
        → Found id (if str_eq k key then ret c else got) (if str_eq k key then ret c else m)
    behind id k c got m keyed found = elim (Bool-cases (str_eq k key)) [
      | inl same ↦
          rw same (either _ _ (str_eq id key) (ap ret (keyed ∙ ap ref ((eq_iff k key).0 same))))
      | inr other ↦ rw other found
    ]

    again :
        (k : String) (c : ContainerRef) (m : Program ContainerRef)
        → c ≡ ref k
        → Found k (if str_eq k key then ret c else m) (if str_eq k key then ret c else m)
    again k c m keyed = elim (Bool-cases (str_eq k key)) [
      | inl same ↦ rw same (ap ret (keyed ∙ ap ref ((eq_iff k key).0 same)))
      | inr other ↦ rw other refl
    ]

    -- The entry in front, by how the inserted key compares with its key.
    at_entry :
        (id k : String) (c : ContainerRef) (rest : Refs) (o : Ordering)
        → compare id k ≡ o
        → c ≡ ref k
        → Found id (find key (insert id (ref id) rest)) (find key rest)
        → Found id
            (find key (elim o [
              | Ordering.lt ↦ (id, ref id) ∷ (k, c) ∷ rest
              | Ordering.eq ↦ (k, c) ∷ rest
              | Ordering.gt ↦ (k, c) ∷ insert id (ref id) rest
            ]))
            (find key ((k, c) ∷ rest))
    at_entry id k c rest Ordering.lt _ keyed _ = here id (ref id) _ refl
    at_entry id k c rest Ordering.eq e keyed _ =
        subst (λ (i : String). Found i (find key ((k, c) ∷ rest)) (find key ((k, c) ∷ rest)))
          (sym (path_by_compare id k e)) (again k c (find key rest) keyed)
    at_entry id k c rest Ordering.gt _ keyed found =
        behind id k c (find key (insert id (ref id) rest)) (find key rest) keyed found

    -- An inserted reference is found under its key, and all else as before.
    find-insert :
        (id : String) (refs : Refs)
        → IsKeyed refs
        → Found id (find key (insert id (ref id) refs)) (find key refs)
    unfolding insert
    find-insert id [] _ = here id (ref id) _ refl
    find-insert id ((k, c) ∷ rest) (keyed, more) =
        at_entry id k c rest (compare id k) refl keyed (find-insert id rest more)

    abbrev pub listed : List String → Bool
    listed [] = false
    listed (id ∷ ids) = listed ids || str_eq id key

    find-refs :
        (ids : List String) (refs : Refs)
        → IsKeyed refs
        → find key (refs_of d ids refs) ≡ (if listed ids then ret (ref key) else find key refs)
    unfolding refs_of
    find-refs [] refs _ = refl
    find-refs (id ∷ ids) refs keyed =
        find-refs ids (insert id (ref id) refs) (insert-IsKeyed id refs keyed)
        ∙ ap (λ (m : Program ContainerRef). if listed ids then ret (ref key) else m)
            (find-insert id refs keyed)
        ∙ merge _ _ (listed ids)
      where
        merge :
            (x y : Program ContainerRef) (a : Bool)
            → (if a then x else (if str_eq id key then x else y))
              ≡ (if a || str_eq id key then x else y)
        merge x y true = refl
        merge x y false = refl

    -- Among the references that containers makes of the ids of a directory, the command exec finds
    -- the container that it is given if the id is among them, with that id and that directory, and
    -- otherwise throws.
    pub find-refs_of :
        (ids : List String)
        → find key (refs_of d ids []) ≡ (
            if listed ids
            then ret (record { id = key; status_dir = d })
            else throw (runtime_error "container not found"))
    find-refs_of ids = find-refs ids [] tt
