-- ===== src/Config/Parser/Laws.antt =====
-- What a configuration satisfies that the parser accepts.
use mathlib.Core.Path.{subst}
use linglong_box.Container.CloneFlag.{generate_clone_flag}
use linglong_box.Container.CloneFlag.Laws.{
  is_invalid, among, fault, outcome, total, total, generate_clone_flag_lem,
}
use linglong_box.Prelude.{
  ◌≡◌, refl, sym, ℕ, ◌+◌, ◌<◌, ◌⊎◌, inl, inr, String, Bool, true, false, none, some, List, [], ◌∷◌,
  codes, All, if◌then◌else◌, Bool-cases, arith,
}
use linglong_box.Result.{Error, Result, ok, err, runtime_error, traverse, ◌>>=◌, invalid_argument}
use linglong_box.Json.{Json, at, or_throw}
use linglong_box.Semver.{Semver, parse, is_compatible_with}
use linglong_box.Semver.Laws.{is_compatible_with_iff}
use linglong_box.Config.{Config, Namespace, NamespaceType}
use linglong_box.Linux.Clone
use linglong_box.Config.Parser.{
  runtime_version, get_text, check_version, parse_namespaces, parse_1_2_0, parse_config,
}
use linglong_box.Config.Parser.Entries.{Unset, namespace_type, namespace_of}

-- Every value that is given satisfies the predicate.
record Gives {A : Type 0} (P : A → Type 0) (r : Result A) : Type 0 where
  at : (a : A) → r ≡ ok a → P a

module _ {A : Type 0} {P : A → Type 0} where
  Gives-ok : (a : A) → P a → Gives P (ok a)
  Gives-ok a p = record { at = λ b e. let same : a ≡ b = cc in subst P same p }

  Gives-err : (e : Error) → Gives P (err e)
  Gives-err e = record { at = λ b h. cc }

  Gives-if : (b : Bool) (r s : Result A) → Gives P r → Gives P s → Gives P (if b then r else s)
  Gives-if true r s p q = p
  Gives-if false r s p q = q

  -- The rest of a chain may use what the step before it gave.
  Gives-bind :
      {B : Type 0} (r : Result B) (f : B → Result A)
      → ((b : B) → r ≡ ok b → Gives P (f b))
      → Gives P (r >>= f)
  Gives-bind (ok b) f p = p b refl
  Gives-bind (err e) f p = Gives-err e

ruleset gives_rules = (Gives-ok, Gives-err, Gives-if, Gives-bind)

module _ {A B : Type 0} {P : A → Type 0} where
  Gives-traverse :
      (f : B → Result A) → ((b : B) → Gives P (f b)) → (xs : List B) → Gives (All P) (traverse f xs)
  Gives-traverse f good [] = Gives-ok [] tt
  Gives-traverse f good (x ∷ xs) =
      Gives-bind (f x) (λ y. traverse f xs >>= λ ys. ok (y ∷ ys))
        λ y ey.
          Gives-bind (traverse f xs) (λ ys. ok (y ∷ ys))
            λ ys eys. Gives-ok (y ∷ ys) ((good x).at y ey, (Gives-traverse f good xs).at ys eys)

IsValid : Namespace → Type 0
IsValid ns = is_invalid ns.type ≡ false

namespace_type-valid : (name : String) → Gives (λ t. is_invalid t ≡ false) (namespace_type name)
unfolding namespace_type is_invalid
namespace_type-valid name = search gives_rules depth 12

module _ (J : Json) (unset : Unset) where
  valid_type :
      (name : String) (t : NamespaceType) → namespace_type name ≡ ok t → is_invalid t ≡ false
  valid_type name t e = (namespace_type-valid name).at t e

  namespace_of-IsValid : (v : J.Value) → Gives IsValid (namespace_of J v)
  unfolding namespace_of IsValid
  namespace_of-IsValid v = search (gives_rules, valid_type) depth 12

  parse_namespaces-IsValid : (j : J.Value) → Gives (All IsValid) (parse_namespaces J unset j)
  unfolding parse_namespaces
  parse_namespaces-IsValid j =
      elim (at J j ("linux" ∷ "namespaces" ∷ []))
        as (λ o.
          Gives (All IsValid)
            (elim o [ none ↦ ok [] | some v ↦ traverse (namespace_of J) (J.elements v) ])) [
              | none ↦ Gives-ok [] tt
              | some v ↦ Gives-traverse (namespace_of J) namespace_of-IsValid (J.elements v)
            ]

  -- The version that a configuration names is one that 1.2.0 serves.
  pub Served : Semver → Type 0
  Served v = (v.major ≡ 1) × ((v.minor < 2) ⊎ ((v.minor ≡ 2) × (v.patch ≡ 0)))

  compatible-Served : (v : Semver) → is_compatible_with runtime_version v ≡ true → Served v
  unfolding Served
  compatible-Served v e =
      let (major, rest) = (is_compatible_with_iff runtime_version v).0 e in
      elim rest [
        | inl minor ↦ (sym major, inl minor)
        | inr p ↦ (sym major, inr (p.0, omega (arith, p.1)))
      ]

  pub Named : J.Value → Type 0
  Named j =
      (text : String) × (version : Semver) × (get_text J unset j ("ociVersion" ∷ []) ≡ ok text)
      × (parse (codes text) ≡ ok version)
      × Served version

  check_version-Named : (j : J.Value) → Gives (λ _. Named j) (check_version J unset j)
  unfolding check_version Named
  check_version-Named j = Gives-bind (get_text J unset j ("ociVersion" ∷ [])) _ λ text et.
      Gives-bind (parse (codes text)) _ λ version ev.
        elim (Bool-cases (is_compatible_with runtime_version version)) [
          | inl fits ↦
              rw fits (Gives-ok version (text, version, et, ev, compatible-Served version fits))
          | inr fails ↦ rw fails (Gives-err (runtime_error "unsupported OCI version"))
        ]

  Sound : J.Value → Config → Type 0
  Sound j c = All IsValid c.namespaces × Named j

  parse_1_2_0-Sound : (j : J.Value) → Gives (Sound j) (parse_1_2_0 J unset j)
  unfolding parse_1_2_0 Sound
  parse_1_2_0-Sound j =
      search (gives_rules, (parse_namespaces-IsValid j).at, (check_version-Named j).at) depth 16

  abbrev Computed : Result ℕ → ℕ → Type 0
  Computed r flag = (r ≡ ok flag) ⊎ (r ≡ err (invalid_argument "duplicate namespace"))

  valid-Computed :
      (seen : List NamespaceType) (namespaces : List Namespace) (flag : ℕ)
      → All IsValid namespaces
      → Computed (outcome (fault seen namespaces) flag) flag
  unfolding fault IsValid outcome
  valid-Computed seen [] flag _ = inl refl
  valid-Computed seen (ns ∷ rest) flag (good, goods) = elim (Bool-cases (among ns.type seen)) [
    | inl old ↦ rw (good, old) (inr refl)
    | inr new ↦ rw (good, new) (valid-Computed (ns.type ∷ seen) rest flag goods)
  ]

  -- A configuration is accepted only if the text of its ociVersion parses to a version with the major
  -- number 1 that is before 1.2, or 1.2.0.
  pub parse_config-version :
      (text : String) (c : Config)
      → parse_config J unset text ≡ ok c
      → (j : J.Value) × (or_throw (J.parse text) ≡ ok j) × Named j
  unfolding parse_config Sound
  parse_config-version text c e = found.at c e
    where
      found :
          Gives
            (λ _. (j : J.Value) × (or_throw (J.parse text) ≡ ok j) × Named j)
            (parse_config J unset text)
      found =
          Gives-bind (or_throw (J.parse text)) _
            λ j ej. record { at = λ d h. (j, ej, ((parse_1_2_0-Sound j).at d h).1) }

  -- The clone flag of a configuration that the parser accepts is SIGCHLD plus the flags of its
  -- namespaces, or is refused because a namespace occurs twice; it is not refused for another reason.
  pub parse_config-namespaces :
      (text : String) (c : Config)
      → parse_config J unset text ≡ ok c
      → (generate_clone_flag c.namespaces ≡ ok (Clone.sigchld + total c.namespaces))
        ⊎ (generate_clone_flag c.namespaces ≡ err (invalid_argument "duplicate namespace"))
  unfolding parse_config Sound
  parse_config-namespaces text c e =
      rw (generate_clone_flag_lem c.namespaces)
        (valid-Computed [] c.namespaces (Clone.sigchld + total c.namespaces) (found.at c e))
    where
      found : Gives (λ d. All IsValid d.namespaces) (parse_config J unset text)
      found =
          Gives-bind (or_throw (J.parse text)) _
            λ j ej. record { at = λ d h. ((parse_1_2_0-Sound j).at d h).0 }
