-- ===== src/Json/Blank.antt =====
-- A library for JSON as the examples take it.
use linglong_box.Prelude.{String, none, []}
use linglong_box.Json.{Json}

-- A JSON library whose values are texts, which writes nothing and reads nothing.
abbrev pub blank : Json
blank = record {
  Value = String;
  parse = λ text. none;
  dump = λ v. v;
  member = λ v key. none;
  elements = λ v. [];
  get_string = λ v. none;
  get_bool = λ v. none;
  get_number = λ v. none;
  get_strings = λ v. none;
  get_numbers = λ v. none;
  get_map = λ v. none;
  of_string = λ s. s;
  of_number = λ n. "";
  of_map = λ m. "";
  object = λ fields. "";
  array = λ values. "";
}
