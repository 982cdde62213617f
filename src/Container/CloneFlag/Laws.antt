-- ===== src/Container/CloneFlag/Laws.antt =====
-- What generate_clone_flag accepts, and the flag that it gives.
use linglong_box.Prelude.{
  ℕ, ◌+◌, ◌^◌, ◌≡◌, refl, ◌∙◌, ap, String, Bool, true, false, ◌||◌, Option, none, some, List, [],
  ◌∷◌, bit_or, ◌==◌, if◌then◌else◌, arith, Bool-cases, inl, inr,
}
use native.Mathlib.Nat.{one-le-pow}
use linglong_box.Prelude.Bits.{bit, bit-zero, bit-pow, bit-bit_or, bit_and-pow, bit_or-pow, has_any}
use linglong_box.Config.{NamespaceType, invalid, ipc, uts, mount, pid, net, user, cgroup, Namespace}
use linglong_box.Linux.Clone
use linglong_box.Result.{Result, ok, err, invalid_argument}
use linglong_box.Container.CloneFlag.{
  type_value, check_duplicate, visit, add_namespaces, generate_clone_flag,
}

-- The bit that a type takes in the flag.
abbrev position : NamespaceType → ℕ
position invalid = 0
position ipc = 27
position uts = 26
position mount = 17
position pid = 29
position net = 30
position user = 28
position cgroup = 25

pub same : NamespaceType → NamespaceType → Bool
same t u = position t == position u

unfoldable pub is_invalid : NamespaceType → Bool
is_invalid invalid = true
is_invalid _ = false

pub among : NamespaceType → List NamespaceType → Bool
among t [] = false
among t (u ∷ us) = same t u || among t us

-- The first fault of the list, if the types of `seen` came before.
unfoldable pub fault : List NamespaceType → List Namespace → Option String
fault seen [] = none
fault seen (ns ∷ rest) =
    let later = fault (ns.type ∷ seen) rest in
    if is_invalid ns.type
    then some "invalid namespace"
    else if among ns.type seen
    then some "duplicate namespace"
    else later

pub total : List Namespace → ℕ
total [] = 0
total (ns ∷ rest) = type_value ns.type + total rest

unfoldable pub outcome : Option String → ℕ → Result ℕ
outcome none flag = ok flag
outcome (some what) flag = err (invalid_argument what)

abbrev indicator : Bool → ℕ
indicator b = if b then 1 else 0

-- The bits of the word that belong to types are those of the types seen.
abbrev Records : List NamespaceType → ℕ → Type 0
Records seen word =
    (t : NamespaceType) → is_invalid t ≡ false → bit (position t) word ≡ indicator (among t seen)

value-position : (t : NamespaceType) → is_invalid t ≡ false → type_value t ≡ 2 ^ position t
unfolding is_invalid
value-position invalid h = cc
value-position ipc h = refl
value-position uts h = refl
value-position mount h = refl
value-position pid h = refl
value-position net h = refl
value-position user h = refl
value-position cgroup h = refl

Records-bit_or :
    (seen : List NamespaceType) (word : ℕ) (u : NamespaceType)
    → is_invalid u ≡ false
    → Records seen word
    → Records (u ∷ seen) (bit_or word (type_value u))
unfolding among same
Records-bit_or seen word u valid r t h =
    rw (value-position u valid, bit-bit_or, r t h, bit-pow) (ground arith)

module _ (seen : List NamespaceType) (word : ℕ) (t : NamespaceType) (valid : is_invalid t ≡ false)
    (r : Records seen word) where
  has_any-among : has_any word (type_value t) ≡ among t seen
  has_any-among =
      rw (value-position t valid, bit_and-pow, r t valid)
        (ground (arith, one-le-pow (position t) 2))

  bit_or-new : among t seen ≡ false → bit_or word (type_value t) ≡ word + type_value t
  bit_or-new new = rw (value-position t valid) (bit_or-pow (position t) word (r t valid ∙ rw new))

visit_valid :
    (t : NamespaceType) (flag setted : ℕ) (rest : ℕ → ℕ → Result ℕ)
    → is_invalid t ≡ false
    → visit t flag setted rest ≡ check_duplicate (type_value t) flag setted rest
unfolding visit is_invalid
visit_valid invalid flag setted rest h = cc
visit_valid _ flag setted rest h = refl

visit_invalid :
    (t : NamespaceType) (flag setted : ℕ) (rest : ℕ → ℕ → Result ℕ)
    → is_invalid t ≡ true
    → visit t flag setted rest ≡ err (invalid_argument "invalid namespace")
unfolding visit is_invalid
visit_invalid invalid flag setted rest h = refl
visit_invalid _ flag setted rest h = cc

add_namespaces_lem :
    (namespaces : List Namespace) (seen : List NamespaceType) (flag setted : ℕ)
    → Records seen flag
    → Records seen setted
    → add_namespaces namespaces flag setted
      ≡ outcome (fault seen namespaces) (flag + total namespaces)
unfolding add_namespaces fault total outcome check_duplicate
add_namespaces_lem [] seen flag setted f s = ap ok (omega arith)
add_namespaces_lem (ns ∷ rest) seen flag setted f s = elim (Bool-cases (is_invalid ns.type)) [
  | inl bad ↦ rw (bad, visit_invalid ns.type flag setted (add_namespaces rest) bad)
  | inr good ↦ elim (Bool-cases (among ns.type seen)) [
    | inl old ↦
        rw (good, old, visit_valid ns.type flag setted (add_namespaces rest) good)
          (duplicate ns.type old good)
    | inr new ↦
        rw (good, new, visit_valid ns.type flag setted (add_namespaces rest) good)
          (fresh ns.type new good (
            add_namespaces_lem rest (ns.type ∷ seen) (bit_or flag (type_value ns.type))
              (bit_or setted (type_value ns.type)) (Records-bit_or seen flag ns.type good f)
              (Records-bit_or seen setted ns.type good s)))
  ]
]
  where
    duplicate :
        (t : NamespaceType)
        → among t seen ≡ true
        → is_invalid t ≡ false
        → check_duplicate (type_value t) flag setted (add_namespaces rest)
          ≡ err (invalid_argument "duplicate namespace")
    duplicate t old good = rw (has_any-among seen setted t good s, old)

    fresh :
        (t : NamespaceType)
        → among t seen ≡ false
        → is_invalid t ≡ false
        → add_namespaces rest (bit_or flag (type_value t)) (bit_or setted (type_value t))
          ≡ outcome (fault (t ∷ seen) rest) (bit_or flag (type_value t) + total rest)
        → check_duplicate (type_value t) flag setted (add_namespaces rest)
          ≡ outcome (fault (t ∷ seen) rest) (flag + (type_value t + total rest))
    fresh t new good ih =
        rw (has_any-among seen setted t good s, new)
          (ih
            ∙ ap (outcome (fault (t ∷ seen) rest))
                (omega (arith, bit_or-new seen flag t good f new)))

-- The flag is computed exactly when no type of the list is invalid and none occurs twice; it is then
-- SIGCHLD plus the sum of the flags of the types. Otherwise the first fault is thrown.
pub generate_clone_flag_lem :
    (namespaces : List Namespace)
    → generate_clone_flag namespaces
      ≡ outcome (fault [] namespaces) (Clone.sigchld + total namespaces)
unfolding generate_clone_flag among is_invalid
generate_clone_flag_lem namespaces =
    add_namespaces_lem namespaces [] Clone.sigchld 0 sigchld_bits zero_bits
  where
    sigchld_bits : Records [] Clone.sigchld
    sigchld_bits invalid h = cc
    sigchld_bits ipc h = refl
    sigchld_bits uts h = refl
    sigchld_bits mount h = refl
    sigchld_bits pid h = refl
    sigchld_bits net h = refl
    sigchld_bits user h = refl
    sigchld_bits cgroup h = refl

    zero_bits : Records [] 0
    zero_bits t h = bit-zero (position t)
