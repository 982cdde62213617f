-- ===== src/Printers.antt =====
-- src/linyaps_box/impl/json_printer.cpp and table_printer.cpp: what is printed for statuses.
use Prim.Native.String.{count}
use linglong_box.Prelude.{ℕ, zero, suc, ◌+◌, ◌-◌, String, ◌<>◌, List, [], ◌∷◌}
use Prim.Native.Nat.{max}
use linglong_box.Prelude.Decimal.{to_string}
use linglong_box.Json.{Json}
use linglong_box.Utils.Paths.{quoted}
use linglong_box.Result.{Result, ok, err, logic_error, traverse, ◌>>=◌}
use linglong_box.Status.{RuntimeStatus, creating, created, running, stopped, unknown, Status}

-- What is printed, up to an exception if one is thrown, and how printing ends.
abbrev pub Printed : Type 0
Printed = String × Result Unit

after_text : String → Printed → Printed
after_text text p = (text <> p.0, p.1)

followed_by : Printed → Printed → Printed
followed_by (text, ok _) rest = after_text text rest
followed_by (text, err e) rest = (text, err e)

-- A text that may not be there to be printed.
printed_with : Result String → (String → Printed) → Printed
printed_with (ok text) rest = rest text
printed_with (err e) rest = ("", err e)

pub status_to_string : RuntimeStatus → Result String
status_to_string creating = ok "creating"
status_to_string created = ok "created"
status_to_string running = ok "running"
status_to_string stopped = ok "stopped"
status_to_string (unknown n) = err (logic_error "unknown status")

module _ (J : Json) where
  pub status_to_json : Status → Result J.Value
  status_to_json s = do
    status_text ← status_to_string s.status
    ok (
        J.object (
          ("id", J.of_string s.id)
          ∷ ("pid", J.of_number s.pid)
          ∷ ("status", J.of_string status_text)
          ∷ ("bundle", J.of_string s.bundle)
          ∷ ("created", J.of_string s.created_at)
          ∷ ("owner", J.of_number s.owner)
          ∷ ("annotations", J.of_map s.annotations)
          ∷ []))

  -- The library's `dump(4)` is taken as `dump`; the line end is part of what is printed.
  pub json_statuses : List Status → Printed
  json_statuses statuses =
      printed_with (traverse status_to_json statuses >>= λ values. ok (J.dump (J.array values)))
        λ text. (text <> "\n", ok tt)

  pub json_status : Status → Printed
  json_status s =
      printed_with (status_to_json s >>= λ v. ok (J.dump v)) λ text. (text <> "\n", ok tt)

-- The same names in table_printer.cpp.
pub get_status_string : RuntimeStatus → Result String
get_status_string creating = ok "creating"
get_status_string created = ok "created"
get_status_string running = ok "running"
get_status_string stopped = ok "stopped"
get_status_string (unknown n) = err (logic_error "unknown status")

spaces : ℕ → String
spaces zero = ""
spaces (suc n) = " " <> spaces n

-- `std::left << std::setw(width) << text`
pub padded : ℕ → String → String
padded width text = text <> spaces (width - count text)

pub longest : ℕ → List Status → ℕ
longest n [] = n
longest n (s ∷ statuses) = longest (max n (count s.id)) statuses

pub header : ℕ → String
header n =
    padded (n + 1) "NAME"
    <> (padded 10 "PID"
        <> (padded 9 "STATUS" <> (padded 40 "BUNDLE PATH" <> (padded 31 "CREATED" <> "OWNER\n"))))

-- A path is printed in quotes.
behind_status : Status → String
behind_status s =
    padded 40 (quoted s.bundle) <> (padded 31 s.created_at <> (to_string s.owner <> "\n"))

pub row : ℕ → Status → Printed
row n s =
    after_text (padded n s.id <> padded 10 (to_string s.pid))
      (printed_with (get_status_string s.status) λ text. (padded 9 text <> behind_status s, ok tt))

rows : ℕ → List Status → Printed
rows n [] = ("", ok tt)
rows n (s ∷ statuses) = followed_by (row n s) (rows n statuses)

pub table_statuses : List Status → Printed
table_statuses statuses = let n = longest 4 statuses in after_text (header n) (rows n statuses)

annotation_lines : List (String × String) → String
annotation_lines [] = ""
annotation_lines (a ∷ rest) = "\t" <> (a.0 <> ("\t" <> (a.1 <> ("\n" <> annotation_lines rest))))

line : String → String → String
line name text = name <> ("\t" <> (text <> "\n"))

-- `table_printer::print_status`
pub table_status : Status → Printed
table_status s = after_text (line "ID" s.id <> (line "PID" (to_string s.pid) <> "status\t")) (
    printed_with (get_status_string s.status) λ text. (
      text
          <> ("\n"
              <> (line "bundle" (quoted s.bundle)
                  <> (line "created" s.created_at
                      <> (line "owner" (to_string s.owner)
                          <> ("annotations\n" <> annotation_lines s.annotations))))),
      ok tt,
    ))
