-- ===== src/Utils/Quoting.antt =====
-- Reading back what is printed in quotes: paths, and the arguments that main logs.
use Prim.Native.Char.{Char, code}
use text.Mathlib.TextLemmas.{cons-append, nil-append}
use linglong_box.Prelude.{
  ◌≡◌, refl, String, ◌<>◌, Bool, true, false, Option, none, some, ◌||◌, ◌==◌, if◌then◌else◌, inl,
  inr, Bool-cases,
}
use linglong_box.Utils.Paths.{escape}

abbrev with_char : Char → Option (String × String) → Option (String × String)
with_char c none = none
with_char c (some r) = some (String.◌∷◌ c r.0, r.1)

-- The text up to the next quote without a backslash in front, and what comes behind the quote.
pub read_quoted : String → Option (String × String)
read_quoted String.[] = none
read_quoted (String.◌∷◌ c String.[]) = if code c == b'"' then some ("", "") else none
read_quoted (String.◌∷◌ c (String.◌∷◌ d s)) =
    let escaped = with_char d (read_quoted s) in
    let plain = with_char c (read_quoted (String.◌∷◌ d s)) in
    if code c == b'"' then some ("", String.◌∷◌ d s) else if code c == b'\\' then escaped else plain

quote_reads : (rest : String) → read_quoted (String.◌∷◌ "\"" rest) ≡ some ("", rest)
unfolding read_quoted
quote_reads String.[] = refl
quote_reads (String.◌∷◌ c s) = refl

backslash_reads :
    (d : Char) (s : String)
    → read_quoted (String.◌∷◌ "\\" (String.◌∷◌ d s)) ≡ with_char d (read_quoted s)
unfolding read_quoted
backslash_reads d s = refl

or-false : (a b : Bool) → (a || b) ≡ false → (a ≡ false) × (b ≡ false)
or-false true b e = absurd cc
or-false false b e = (refl, e)

plain_reads :
    (c : Char) (s : String)
    → (code c == b'"' || code c == b'\\') ≡ false
    → read_quoted (String.◌∷◌ c s) ≡ with_char c (read_quoted s)
unfolding read_quoted
plain_reads c String.[] e = let no = or-false (code c == b'"') _ e in rw (no.0) refl
plain_reads c (String.◌∷◌ d s) e = let no = or-false (code c == b'"') _ e in rw (no.0, no.1) refl

-- Reading the escaped text behind an opening quote gives back the text, and what comes behind the
-- closing quote.
pub read_quoted-escape :
    (w rest : String) → read_quoted (escape w <> String.◌∷◌ "\"" rest) ≡ some (w, rest)
unfolding escape
read_quoted-escape String.[] rest = rw (nil-append (String.◌∷◌ "\"" rest)) (quote_reads rest)
read_quoted-escape (String.◌∷◌ c w) rest =
    let end : String = String.◌∷◌ "\"" rest in
    elim (Bool-cases (code c == b'"' || code c == b'\\')) [
      | inl e ↦
          rw
            (
              e,
              cons-append "\\" (String.◌∷◌ c (escape w)) end,
              cons-append c (escape w) end,
              backslash_reads c (escape w <> end),
              read_quoted-escape w rest,
            )
            refl
      | inr e ↦
          rw
            (
              e,
              cons-append c (escape w) end,
              plain_reads c (escape w <> end) e,
              read_quoted-escape w rest,
            )
            refl
    ]
