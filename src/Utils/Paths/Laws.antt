-- ===== src/Utils/Paths/Laws.antt =====
-- The path of a name in a directory: its file name, and that it determines the name.
use Prim.Native.Char.{Char}
use text.Mathlib.TextLemmas.{nil-append, cons-append, append-nil, append_assoc, cons-ne-nil}
use linglong_box.Prelude.{
  ◌≡◌, refl, sym, ap, ◌∙◌, String, ◌<>◌, Bool, true, false, List, ◌∷◌, str_eq, eq_iff,
  if◌then◌else◌, Bool-cases, inl, inr,
}
use linglong_box.Utils.Paths.{
  is_slash, drop_slashes, is_absolute, names_from, names, last_or, filename, append,
}

-- No byte of the text is a slash.
abbrev pub Slashless : String → Type 0
Slashless String.[] = Unit
Slashless (String.◌∷◌ c s) = (is_slash c ≡ false) × Slashless s

-- A text that can stand as the name of a file.
pub record IsName (s : String) : Type 0 where
  pub slashless : Slashless s
  pub nonempty : str_eq s "" ≡ false

pub Slashless-append : (s t : String) → Slashless s → Slashless t → Slashless (s <> t)
Slashless-append String.[] t hs ht = rw (nil-append t) ht
Slashless-append (String.◌∷◌ c s) t hs ht =
    rw (cons-append c s t) (hs.0, Slashless-append s t hs.1 ht)

cons-IsName : (c : Char) (s : String) → str_eq (String.◌∷◌ c s) "" ≡ false
cons-IsName c s = elim (Bool-cases (str_eq (String.◌∷◌ c s) "")) [
  | inl e ↦ elim (cons-ne-nil c s ((eq_iff (String.◌∷◌ c s) "").0 e)) [ ]
  | inr e ↦ e
]

pub IsName-append : (s t : String) → IsName s → Slashless t → IsName (s <> t)
IsName-append String.[] t n ht = let no : true ≡ false = n.nonempty in cc
IsName-append (String.◌∷◌ c s) t n ht = record {
  slashless = Slashless-append (String.◌∷◌ c s) t n.slashless ht;
  nonempty = ap (λ u. str_eq u "") (cons-append c s t) ∙ cons-IsName c (s <> t);
}

pub is_absolute-IsName : (s : String) → IsName s → is_absolute s ≡ false
unfolding is_absolute
is_absolute-IsName String.[] n = refl
is_absolute-IsName (String.◌∷◌ c s) n = n.slashless.0

-- The last name of a text without slashes.
last-Slashless :
    (d current s : String) → Slashless s → last_or d (names_from current false s) ≡ current <> s
unfolding last_or names_from
last-Slashless d current String.[] hs = sym (append-nil current)
last-Slashless d current (String.◌∷◌ c s) hs =
    rw (names_from, hs.0)
      (last-Slashless d (current <> String.◌∷◌ c "") s hs.1
        ∙ append_assoc current (String.◌∷◌ c "") s
        ∙ ap (λ t. current <> t) (cons-append c "" s ∙ ap (λ t. String.◌∷◌ c t) (nil-append s)))

last-if :
    (b : Bool) (d x : String) (xs : List String) (n : String)
    → ((e : String) → last_or e xs ≡ n)
    → last_or d (if b then xs else x ∷ xs) ≡ n
unfolding last_or
last-if true d x xs n p = p d
last-if false d x xs n p = p x

-- The last name behind a slash, whatever names stand before.
last-pending : (d current s : String) → IsName s → last_or d (names_from current true s) ≡ s
unfolding last_or names_from
last-pending d current String.[] n = let no : true ≡ false = n.nonempty in cc
last-pending d current (String.◌∷◌ c s) n =
    let name : (e : String) → last_or e (names_from (String.◌∷◌ c "") false s) ≡ String.◌∷◌ c s =
      λ e.
        last-Slashless e (String.◌∷◌ c "") s n.slashless.1
        ∙ cons-append c "" s
        ∙ ap (λ t. String.◌∷◌ c t) (nil-append s) in
    rw (names_from, n.slashless.0) (last-if (str_eq current "") d current _ (String.◌∷◌ c s) name)

last-name :
    (s d current : String) (pending : Bool) (n : String)
    → IsName n
    → last_or d (names_from current pending (s <> ("/" <> n))) ≡ n
unfolding last_or names_from
last-name String.[] d current pending n h =
    rw (nil-append ("/" <> n), cons-append "/" "" n, nil-append n) (last-pending d current n h)
last-name (String.◌∷◌ c s) d current pending n h =
    let later : (e current : String) (pending : Bool)
        → last_or e (names_from current pending (s <> ("/" <> n))) ≡ n =
      λ e current pending. last-name s e current pending n h in
    rw (cons-append c s ("/" <> n)) (elim (Bool-cases (is_slash c)) [
      | inl e ↦ rw (names_from, e) (later d current true)
      | inr e ↦ elim (Bool-cases pending) [
        | inl p ↦
            rw (names_from, e, p)
              (last-if (str_eq current "") d current _ n λ x. later x (String.◌∷◌ c "") false)
        | inr p ↦ rw (names_from, e, p) (later d (current <> String.◌∷◌ c "") false)
      ]
    ])

-- The names of a text that is not empty are read from its start.
last-names :
    (d s : String) → str_eq s "" ≡ false → last_or d (names s) ≡ last_or d (names_from "" false s)
unfolding names
last-names d String.[] nonempty = let no : true ≡ false = nonempty in cc
last-names d (String.◌∷◌ c s) nonempty = refl

drop_slashes-IsName : (s : String) → IsName s → drop_slashes s ≡ s
unfolding drop_slashes
drop_slashes-IsName String.[] n = refl
drop_slashes-IsName (String.◌∷◌ c s) n = rw n.slashless.0 refl

filename-IsName : (s : String) → IsName s → filename s ≡ s
unfolding filename
filename-IsName s n =
    rw (drop_slashes-IsName s n)
      (last-names "" s n.nonempty ∙ last-Slashless "" "" s n.slashless ∙ nil-append s)

filename-slash : (s n : String) → IsName n → filename (s <> ("/" <> n)) ≡ n
unfolding filename drop_slashes
filename-slash String.[] n h =
    rw (nil-append ("/" <> n), cons-append "/" "" n, nil-append n) (filename-IsName n h)
filename-slash (String.◌∷◌ c s) n h =
    rw (cons-append c s ("/" <> n)) (elim (Bool-cases (is_slash c)) [
      | inl e ↦ rw e (filename-slash s n h)
      | inr e ↦ rw e (
          last-names "" (String.◌∷◌ c (s <> ("/" <> n))) (cons-IsName c (s <> ("/" <> n)))
          ∙ ap (λ t. last_or "" (names_from "" false t)) (sym (cons-append c s ("/" <> n)))
          ∙ last-name (String.◌∷◌ c s) "" "" false n h)
    ])

pub filename-append : (dir n : String) → IsName n → filename (append dir n) ≡ n
unfolding append
filename-append dir n h = elim (Bool-cases (str_eq dir "")) [
  | inl e ↦ rw (is_absolute-IsName n h, e) (filename-IsName n h)
  | inr e ↦ rw (is_absolute-IsName n h, e) (filename-slash dir n h)
]

-- Two names with one path in a directory are the same.
pub append-injective :
    (dir n m : String) → IsName n → IsName m → append dir n ≡ append dir m → n ≡ m
append-injective dir n m hn hm e =
    sym (filename-append dir n hn) ∙ ap filename e ∙ filename-append dir m hm

-- What is written behind a name stands behind its path.
pub append-suffix :
    (dir n t : String) → IsName n → Slashless t → append dir (n <> t) ≡ append dir n <> t
unfolding append
append-suffix dir n t h ht =
    let whole : is_absolute (n <> t) ≡ false =
      is_absolute-IsName (n <> t) (IsName-append n t h ht) in
    elim (Bool-cases (str_eq dir "")) [
      | inl e ↦ rw (whole, is_absolute-IsName n h, e) refl
      | inr e ↦
          rw (whole, is_absolute-IsName n h, e)
            (sym (append_assoc dir ("/" <> n) t ∙ ap (λ s. dir <> s) (append_assoc "/" n t)))
    ]
