-- ===== src/Config/MountOptions/Laws.antt =====
-- What a list of mount options comes to.
use Prim.Native.Nat.{max, min}
use Prim.Native.String.append.{cons}
use mathlib.Core.Option.{some-injective}
use mathlib.Core.Bool.{Bool}
use mathlib.Core.Path.{subst}
use text.Mathlib.TextLemmas.{
  append_assoc as append_assoc_text, append-nil as append-nil_text, nil-append,
}
use linglong_box.Prelude.{
  ℕ, ◌^◌, ◌<◌, ◌≡◌, refl, ◌∙◌, sym, ap, String, ◌<>◌, Option, none, some, List, [], ◌∷◌, str_eq,
  bit_and, if◌then◌else◌, ◌==◌, arith, All, Bool-cases, inl, inr,
}
use linglong_box.Prelude.Bits.{
  bit, complement, bit-bit_or, bit-bit_and, bit-complement, bit-le, bit-zero,
}
use linglong_box.Config.MountOptions.{
  Table, propagation_flags_map, flags_map, unset_flags_map, find, Parsed, apply, step, loop,
  drop_first, parse_mount_options,
}

zero-bit_and : (m : ℕ) → bit_and 0 m ≡ 0
zero-bit_and m = Prim.Native.Nat.bit_and-bitwise 0 m

apply-propagation :
    (a b c : Option ℕ) (opt : String) (p : Parsed)
    → p.propagation_flags ≡ 0
    → (apply a b c opt p).propagation_flags ≡ 0
unfolding apply
apply-propagation (some m) b c opt p h = h
apply-propagation none (some m) c opt p h = h
apply-propagation none none (some m) opt p h = ap (λ (n : ℕ). bit_and n m) h ∙ zero-bit_and m
apply-propagation none none none opt p h = h

loop-propagation :
    (p : Parsed) (options : List String)
    → p.propagation_flags ≡ 0
    → (loop p options).propagation_flags ≡ 0
unfolding loop step
loop-propagation p [] h = h
loop-propagation p (opt ∷ options) h =
    loop-propagation (step p opt) options (apply-propagation _ _ _ opt p h)

-- Whatever the options are, no propagation flag is ever set: the loop takes `&` with the mask
-- of an option where setting it would take `|`.
pub parse_mount_options-propagation :
    (options : List String) → (parse_mount_options options).propagation_flags ≡ 0
unfolding parse_mount_options
parse_mount_options-propagation options = loop-propagation _ options refl

pub data Effect : Type 0 where
  sets clears leaves : Effect

choose : Bool → Effect → Effect
choose b e = if b then e else leaves

effect_of : ℕ → Option ℕ → Option ℕ → Effect
unfolding choose
effect_of k (some mask) unset = choose (bit k mask == 1) sets
effect_of k none (some mask) = choose (bit k mask == 1) clears
effect_of k none none = leaves

-- What one option does to the bit `k` of the flags, by the tables.
pub effect : ℕ → String → Effect
effect k opt = effect_of k (find opt flags_map) (find opt unset_flags_map)

pub after : Effect → ℕ → ℕ
after sets before = 1
after clears before = 0
after leaves before = before

-- The last option that sets or clears the bit decides it; `before` is its value at the start.
pub decided : ℕ → ℕ → List String → ℕ
decided k before [] = before
decided k before (opt ∷ options) = decided k (after (effect k opt) before) options

abbrev Fits : String × ℕ → Type 0
Fits e = e.1 < 2 ^ 64

module _ {m : ℕ} where
  find-Fits : (key : String) (t : Table) → All Fits t → find key t ≡ some m → m < 2 ^ 64
  unfolding find
  find-Fits key [] _ e = cc
  find-Fits key ((k, v) ∷ rest) (h, hs) e = elim (Bool-cases (str_eq k key)) [
    | inl yes_eq ↦
        let f : some v ≡ some m = rw yes_eq at e in subst (λ x. x < 2 ^ 64) (some-injective v m f) h
    | inr no_eq ↦ find-Fits key rest hs (rw no_eq at e)
  ]

unset_flags_map-Fits : All Fits unset_flags_map
unset_flags_map-Fits = omega arith

apply-bit :
    (k : ℕ) (a b c : Option ℕ) (opt : String) (p : Parsed)
    → k < 64
    → ((m : ℕ) → b ≡ some m → m < 2 ^ 64)
    → bit k (apply a b c opt p).flags ≡ after (effect_of k a b) (bit k p.flags)
unfolding apply effect_of after
apply-bit k (some m) b c opt p h fits =
    ground (arith, bit-bit_or k p.flags m, bit-le k m, bit-le k p.flags)
apply-bit k none (some m) c opt p h fits = ground (
  arith,
  bit-bit_and k p.flags (complement 64 m),
  bit-complement k 64 m h (fits m refl),
  bit-le k m,
  bit-le k p.flags,
)
apply-bit k none none (some m) opt p h fits = refl
apply-bit k none none none opt p h fits = refl

loop-bit :
    (k : ℕ) (p : Parsed) (options : List String)
    → k < 64
    → bit k (loop p options).flags ≡ decided k (bit k p.flags) options
unfolding loop step decided effect
loop-bit k p [] h = refl
loop-bit k p (opt ∷ options) h =
    loop-bit k (step p opt) options h
    ∙ ap (λ (n : ℕ). decided k n options)
        (apply-bit k _ _ _ opt p h (λ m e. find-Fits opt unset_flags_map unset_flags_map-Fits e))

-- Each of the 64 bits of the mount flags is what the last option that sets or clears it says, and
-- 0 if there is none.
pub parse_mount_options-bit :
    (k : ℕ) (options : List String)
    → k < 64
    → bit k (parse_mount_options options).flags ≡ decided k 0 options
unfolding parse_mount_options
parse_mount_options-bit k options h =
    loop-bit k _ options h ∙ ap (λ (n : ℕ). decided k n options) (bit-zero k)

keep_unknown : Option ℕ → Option ℕ → Option ℕ → String → List String → List String
keep_unknown none none none opt rest = opt ∷ rest
keep_unknown _ _ _ opt rest = rest

-- The options that no table has, in order.
pub unknown : List String → List String
unknown [] = []
unknown (opt ∷ options) =
    keep_unknown (find opt flags_map) (find opt unset_flags_map) (find opt propagation_flags_map)
      opt (unknown options)

commas : List String → String
commas [] = ""
commas (opt ∷ options) = "," <> (opt <> commas options)

-- The texts with a comma between each two.
pub join : List String → String
join [] = ""
join (opt ∷ options) = opt <> commas options

apply-text :
    (a b c : Option ℕ) (opt : String) (p : Parsed) (rest : List String)
    → (apply a b c opt p).text <> commas rest ≡ p.text <> commas (keep_unknown a b c opt rest)
unfolding apply keep_unknown commas
apply-text none none none opt p rest = simp append_assoc_text
apply-text _ _ _ opt p rest = refl

loop-text :
    (p : Parsed) (options : List String)
    → (loop p options).text ≡ p.text <> commas (unknown options)
unfolding loop unknown step commas
loop-text p [] = sym (append-nil_text p.text)
loop-text p (opt ∷ options) =
    loop-text (step p opt) options ∙ apply-text _ _ _ opt p (unknown options)

drop_first-commas : (options : List String) → drop_first (commas options) ≡ join options
unfolding commas join drop_first
drop_first-commas [] = refl
drop_first-commas (opt ∷ options) =
    ap drop_first (cons "," "" (opt <> commas options)) ∙ nil-append (opt <> commas options)

-- The data string is the comma-separated list of exactly the options that no table has.
pub parse_mount_options-text :
    (options : List String) → (parse_mount_options options).text ≡ join (unknown options)
unfolding parse_mount_options
parse_mount_options-text options =
    ap drop_first (loop-text _ options ∙ nil-append (commas (unknown options)))
    ∙ drop_first-commas (unknown options)
