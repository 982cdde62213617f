-- ===== src/StatusDirectory/Store.antt =====
-- The abstract view of src/linyaps_box/impl/status_directory.cpp: the statuses by their ids, the
-- updates that write and remove make, and the files that stand for a store.
use linglong_box.Prelude.{
  ◌≡◌, refl, sym, ap, ◌∙◌, String, ◌<>◌, true, false, Option, none, some, List, [], ◌∷◌, map, All,
  str_eq, eq_iff, Bool-cases, inl, inr, if◌then◌else◌,
}
use linglong_box.Json.{Json, entry}
use linglong_box.Program.{Program, for_each}
use linglong_box.Status.{Status}
use linglong_box.StatusDirectory.{status_path, status_json, write, remove}
use linglong_box.StatusDirectory.FileSystem.{Files, erase}
use linglong_box.StatusDirectory.Paths.{status_path-injective, status_path-tmp}
use linglong_box.Utils.Paths.Laws.{IsName}

abbrev pub Store : Type 0
Store = List Status

pub data Update : Type 0 where
  put : Status → Update
  drop : String → Update

abbrev pub find : String → Store → Option Status
find id [] = none
find id (s ∷ store) = let later = find id store in if str_eq s.id id then some s else later

abbrev pub without : String → Store → Store
without id [] = []
without id (s ∷ store) =
    let others = without id store in if str_eq s.id id then others else s ∷ others

abbrev pub updated : Store → Update → Store
updated store (put s) = s ∷ without s.id store
updated store (drop id) = without id store

abbrev pub updated_by : Store → List Update → Store
updated_by store [] = store
updated_by store (u ∷ us) = updated_by (updated store u) us

abbrev pub IsNamed : Store → Type 0
IsNamed = All (λ s. IsName s.id)

abbrev pub IsUsable : Update → Type 0
IsUsable (put s) = IsName s.id
IsUsable (drop id) = IsName id

pub without-IsNamed : (id : String) (store : Store) → IsNamed store → IsNamed (without id store)
without-IsNamed id [] n = tt
without-IsNamed id (s ∷ store) n = elim (Bool-cases (str_eq s.id id)) [
  | inl e ↦ rw e (without-IsNamed id store n.1)
  | inr e ↦ rw e (n.0, without-IsNamed id store n.1)
]

pub updated-IsNamed :
    (store : Store) (u : Update) → IsUsable u → IsNamed store → IsNamed (updated store u)
updated-IsNamed store (put s) h n = (h, without-IsNamed s.id store n)
updated-IsNamed store (drop id) h n = without-IsNamed id store n

pub str_eq_refl : (s : String) → str_eq s s ≡ true
str_eq_refl s = (eq_iff s s).1 refl

str_eq-same : (a b c d : String) → (a ≡ b → c ≡ d) → (c ≡ d → a ≡ b) → str_eq a b ≡ str_eq c d
str_eq-same a b c d there back = elim (Bool-cases (str_eq a b)) [
  | inl e ↦ e ∙ sym ((eq_iff c d).1 (there ((eq_iff a b).0 e)))
  | inr e ↦ elim (Bool-cases (str_eq c d)) [
    | inl f ↦ let yes : str_eq a b ≡ true = (eq_iff a b).1 (back ((eq_iff c d).0 f)) in cc
    | inr f ↦ e ∙ sym f
  ]
]

str_eq-apart : (a b : String) → ¬ (a ≡ b) → str_eq a b ≡ false
str_eq-apart a b apart = elim (Bool-cases (str_eq a b)) [
  | inl e ↦ elim (apart ((eq_iff a b).0 e)) [ ]
  | inr e ↦ e
]

-- Erasing what is not there.
pub erase-absent :
    (key : String) (files : Files)
    → All (λ f. str_eq f.0 key ≡ false) files
    → erase key files ≡ files
erase-absent key [] absent = refl
erase-absent key ((k, v) ∷ files) absent =
    rw absent.0 (ap (λ (l : Files). (k, v) ∷ l) (erase-absent key files absent.1))

module _ (J : Json) (dir : String) where
  abbrev pub perform : Update → Program Unit
  perform (put s) = write J dir s
  perform (drop id) = remove J dir id

  abbrev pub perform_all : List Update → Program Unit
  perform_all = for_each perform

  abbrev pub text_of : Status → String
  text_of s = J.dump (status_json J s)

  abbrev pub file_of : Status → String × String
  file_of s = (status_path dir s.id, text_of s)

  abbrev pub image : Store → Files
  image = map file_of

  same_key :
      (a b : String)
      → IsName a
      → IsName b
      → str_eq (status_path dir a) (status_path dir b) ≡ str_eq a b
  same_key a b n m =
      str_eq-same (status_path dir a) (status_path dir b) a b (status_path-injective dir a b n m)
        (ap (status_path dir))

  pub erase-image :
      (id : String) (store : Store)
      → IsName id
      → IsNamed store
      → erase (status_path dir id) (image store) ≡ image (without id store)
  erase-image id [] n all = refl
  erase-image id (s ∷ store) n all =
      rw (same_key s.id id all.0 n) (elim (Bool-cases (str_eq s.id id)) [
        | inl e ↦ rw e (erase-image id store n all.1)
        | inr e ↦ rw e (ap (λ (l : Files). file_of s ∷ l) (erase-image id store n all.1))
      ])

  abbrev pub text_found : Option Status → Option String
  text_found none = none
  text_found (some s) = some (text_of s)

  pub entry-image :
      (id : String) (store : Store)
      → IsName id
      → IsNamed store
      → entry (image store) (status_path dir id) ≡ text_found (find id store)
  entry-image id [] n all = refl
  entry-image id (s ∷ store) n all =
      rw (same_key s.id id all.0 n) (elim (Bool-cases (str_eq s.id id)) [
        | inl e ↦ rw e refl
        | inr e ↦ rw e (entry-image id store n all.1)
      ])

  pub image-tmp :
      (id : String) (store : Store)
      → IsName id
      → IsNamed store
      → All (λ f. str_eq f.0 (status_path dir id <> ".tmp") ≡ false) (image store)
  image-tmp id [] n all = tt
  image-tmp id (s ∷ store) n all =
      (str_eq-apart _ _ (status_path-tmp dir id s.id n all.0), image-tmp id store n all.1)
