-- ===== src/Utils/Paths.antt =====
-- The members of `std::filesystem::path` that the program uses, on the text of a path.
pub mod Laws
use Prim.Native.Char.{Char, code}
use linglong_box.Prelude.{
  ◌≡◌, refl, String, ◌<>◌, Bool, true, false, List, [], ◌∷◌, ◌++◌, str_eq, ◌==◌, if◌then◌else◌,
  ◌||◌,
}

abbrev is_slash : Char → Bool
is_slash c = code c == b'/'

drop_slashes : String → String
drop_slashes String.[] = ""
drop_slashes (String.◌∷◌ c s) =
    let rest = drop_slashes s in if is_slash c then rest else String.◌∷◌ c s

pub is_absolute : String → Bool
is_absolute String.[] = false
is_absolute (String.◌∷◌ c s) = is_slash c

-- `relative_path`
pub relative_path : String → String
relative_path s = drop_slashes s

-- The names of a relative path. A slash at the end leaves an empty last name; `pending` tells that
-- a slash has been read since the last name.
names_from : String → Bool → String → List String
names_from current pending String.[] =
    if pending then (if str_eq current "" then [] else current ∷ "" ∷ []) else current ∷ []
names_from current pending (String.◌∷◌ c s) = elim (is_slash c) [
  | true ↦ names_from current true s
  | false ↦ elim pending [
    | true ↦
        let rest = names_from (String.◌∷◌ c "") false s in
        if str_eq current "" then rest else current ∷ rest
    | false ↦ names_from (current <> String.◌∷◌ c "") false s
  ]
]

names : String → List String
names String.[] = []
names s = names_from "" false s

-- What a loop over the path visits: the root directory first, if the path is absolute.
pub components : String → List String
components s = if is_absolute s then "/" ∷ names (drop_slashes s) else names s

but_last : List String → List String
but_last [] = []
but_last (x ∷ []) = []
but_last (x ∷ y ∷ xs) = x ∷ but_last (y ∷ xs)

last_or : String → List String → String
last_or d [] = d
last_or d (x ∷ xs) = last_or x xs

-- `parent_path`, by its components.
pub parent_components : String → List String
parent_components s =
    let root = if is_absolute s then "/" ∷ [] else [] in root ++ but_last (names (drop_slashes s))

-- `filename`
pub filename : String → String
filename s = last_or "" (names (drop_slashes s))

-- `/` of two paths: an absolute right side replaces the left one.
pub append : String → String → String
append a b = if is_absolute b then b else (if str_eq a "" then b else a <> ("/" <> b))

-- A path as `<<` prints it: in double quotes, with a backslash before a quote and a backslash.
unfoldable pub escape : String → String
escape String.[] = ""
escape (String.◌∷◌ c s) =
    if code c == b'"' || code c == b'\\'
    then String.◌∷◌ "\\" (String.◌∷◌ c (escape s))
    else String.◌∷◌ c (escape s)

unfoldable pub quoted : String → String
quoted s = "\"" <> (escape s <> "\"")

paths_test :
    (components "/usr//share/" ≡ "/" ∷ "usr" ∷ "share" ∷ "" ∷ [])
    × (components "dev/pts" ≡ "dev" ∷ "pts" ∷ [])
    × (parent_components "/a/b/c" ≡ "/" ∷ "a" ∷ "b" ∷ [])
    × (filename "/a/b/c" ≡ "c")
unfolding components parent_components filename names names_from drop_slashes is_absolute but_last
    last_or
paths_test = (refl, refl, refl, refl)
