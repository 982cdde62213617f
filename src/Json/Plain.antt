-- ===== src/Json/Plain.antt =====
-- A JSON library as the examples take it, which writes every value as a text that it can read back.
use Prim.Native.Char.{Char, code}
use linglong_box.Prelude.{
  ◌≡◌, refl, ap, ◌∙◌, ℕ, zero, suc, String, ◌==◌, Bool, true, false, Option, none, some, List, [],
  ◌∷◌, if◌then◌else◌,
}
use linglong_box.Json.{Json, IsLawful, entry}

-- A text as a list of flagged characters, in front of more.
unfoldable pub place : String → String → String
place String.[] rest = String.◌∷◌ "0" rest
place (String.◌∷◌ c s) rest = String.◌∷◌ "1" (String.◌∷◌ c (place s rest))

abbrev in_front : Char → List String → List String
in_front c [] = []
in_front c (s ∷ ss) = String.◌∷◌ c s ∷ ss

-- The texts that were place; `true` is the state behind the flag of a character.
unfoldable pub split : Bool → String → List String
split _ String.[] = []
split true (String.◌∷◌ c s) = in_front c (split false s)
split false (String.◌∷◌ c s) =
    let ended = "" ∷ split false s in
    let inside = split true s in if code c == b'0' then ended else inside

split-place : (s rest : String) → split false (place s rest) ≡ s ∷ split false rest
unfolding split place
split-place String.[] rest = refl
split-place (String.◌∷◌ c s) rest = ap (in_front c) (split-place s rest)

abbrev encode : List (String × String) → String
encode [] = ""
encode ((k, v) ∷ m) = place k (place v (encode m))

abbrev pairs : List String → List (String × String)
pairs [] = []
pairs (k ∷ []) = []
pairs (k ∷ v ∷ rest) = (k, v) ∷ pairs rest

decode-encode : (m : List (String × String)) → pairs (split false (encode m)) ≡ m
unfolding split
decode-encode [] = refl
decode-encode ((k, v) ∷ m) =
    ap pairs (split-place k _ ∙ ap (λ (l : List String). k ∷ l) (split-place v _))
    ∙ ap (λ (l : List (String × String)). (k, v) ∷ l) (decode-encode m)

abbrev strokes : ℕ → String
strokes zero = ""
strokes (suc n) = String.◌∷◌ "1" (strokes n)

abbrev tally : String → ℕ
tally String.[] = 0
tally (String.◌∷◌ c s) = suc (tally s)

tally-strokes : (n : ℕ) → tally (strokes n) ≡ n
tally-strokes zero = refl
tally-strokes (suc n) = ap (λ (m : ℕ). suc m) (tally-strokes n)

-- A value is written behind a mark, so that no value is written as the empty text.
abbrev parse_marked : String → Option String
parse_marked String.[] = none
parse_marked (String.◌∷◌ c s) = some s

abbrev pub plain : Json
plain = record {
  Value = String;
  parse = λ text. parse_marked text;
  dump = λ v. String.◌∷◌ "j" v;
  member = λ v key. entry (pairs (split false v)) key;
  elements = λ v. [];
  get_string = λ v. some v;
  get_bool = λ v. none;
  get_number = λ v. some (tally v);
  get_strings = λ v. none;
  get_numbers = λ v. none;
  get_map = λ v. some (pairs (split false v));
  of_string = λ s. s;
  of_number = λ n. strokes n;
  of_map = λ m. encode m;
  object = λ fields. encode fields;
  array = λ values. "";
}

pub plain-IsLawful : IsLawful plain
plain-IsLawful = record {
  parse-dump = λ v. refl;
  member-object =
      λ fields key. ap (λ (m : List (String × String)). entry m key) (decode-encode fields);
  string_back = λ s. refl;
  number_back = λ n. ap some (tally-strokes n);
  map_back = λ m. ap some (decode-encode m);
}
