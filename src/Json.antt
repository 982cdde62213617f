-- ===== src/Json.antt =====
-- The JSON library that the program uses: an unknown type of values, and the operations on it.
-- `none` stands for what the library throws, or asserts, on a value of another shape.
pub mod Blank
pub mod Plain
use linglong_box.Prelude.{
  ℕ, ◌≡◌, String, Bool, Option, none, some, List, [], ◌∷◌, str_eq, if◌then◌else◌,
}
use linglong_box.Result.{Result, ok, err, json_error}

pub record Json : Type 1 where
  pub Value : Type 0
  -- text to a value and back
  pub parse : String → Option Value
  pub dump : Value → String
  -- a member of an object, and the elements that a loop visits
  pub member : Value → String → Option Value
  pub elements : Value → List Value
  -- `get<T>()`
  pub get_string : Value → Option String
  pub get_bool : Value → Option Bool
  pub get_number : Value → Option ℕ
  pub get_strings : Value → Option (List String)
  pub get_numbers : Value → Option (List ℕ)
  pub get_map : Value → Option (List (String × String))
  -- values from data
  pub of_string : String → Value
  pub of_number : ℕ → Value
  pub of_map : List (String × String) → Value
  pub object : List (String × Value) → Value
  pub array : List Value → Value

-- The first entry of a name.
abbrev pub entry {ℓ} : {A : Type ℓ} → List (String × A) → String → Option A
entry [] key = none
entry ((k, v) ∷ rest) key = if str_eq k key then some v else entry rest key

-- What the program relies on: a dumped value is parsed back, and what an object is built from can
-- be read from it.
pub record IsLawful (J : Json) : Type 0 where
  pub parse-dump : (v : J.Value) → J.parse (J.dump v) ≡ some v
  pub member-object :
      (fields : List (String × J.Value)) (key : String)
      → J.member (J.object fields) key ≡ entry fields key
  pub string_back : (s : String) → J.get_string (J.of_string s) ≡ some s
  pub number_back : (n : ℕ) → J.get_number (J.of_number n) ≡ some n
  pub map_back : (m : List (String × String)) → J.get_map (J.of_map m) ≡ some m

abbrev pub or_throw {ℓ} : {A : Type ℓ} → Option A → Result A
or_throw none = err json_error
or_throw (some a) = ok a

module _ (J : Json) where
  -- `j[ptr / a / b]`, and whether it is there.
  unfoldable pub at : J.Value → List String → Option J.Value
  at v [] = some v
  at v (key ∷ keys) = elim (J.member v key) [ none ↦ none | some w ↦ at w keys ]
