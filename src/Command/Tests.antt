-- ===== src/Command/Tests.antt =====
-- Finding a container by its id, as an example of the law about it.
use linglong_box.Prelude.{◌≡◌, refl, inr, String, none, List, [], ◌∷◌, str_eq, if◌then◌else◌}
use linglong_box.Config.Parser.Entries.{Unset}
use linglong_box.Json.Blank.{blank}
use linglong_box.Program.{ret, throw}
use linglong_box.Result.{runtime_error}
use linglong_box.Status.{StatusDirectory, creating}
use linglong_box.Runtime.{refs_of}
use linglong_box.Command.{find, main, not_set, list, table}
use linglong_box.Command.CommandLine.{CliResult, options_of}
use linglong_box.Command.CommandLine.Laws.{main-options_of}
use linglong_box.Command.Laws.{listed, find-refs_of}

abbrev two_boxes : List String
two_boxes = "box" ∷ "app" ∷ []

abbrev directory : StatusDirectory
directory = record {
  write = λ s. ret tt;
  read = λ id. ret (record {
    id = id;
    pid = 1;
    status = creating;
    bundle = "";
    created_at = "";
    owner = 0;
    annotations = [];
  });
  remove = λ id. ret tt;
  list = ret two_boxes;
}

find-refs_of_example : find "app" (refs_of directory two_boxes []) ≡ (
    if listed directory "app" two_boxes
    then ret (record { id = "app"; status_dir = directory })
    else throw (runtime_error "container not found"))
find-refs_of_example = find-refs_of directory "app" two_boxes

-- What CLI11 gives for `kill --signal STOP box`.
abbrev stop_box : CliResult
stop_box = record {
  exit_code = none;
  parsed = λ subcommand. str_eq subcommand "kill";
  value = λ subcommand option.
      if str_eq option "CONTAINER" then "box" else if str_eq option "--signal" then "STOP" else "";
  values = λ subcommand option. [];
}

abbrev indeterminate : Unset
indeterminate = record { flags = 0; propagation_flags = 0; timeout = 0 }

main-options_of_example :
    main blank 3 indeterminate (options_of not_set stop_box)
    ≡ main blank 3 indeterminate (options_of (list table) stop_box)
main-options_of_example =
    main-options_of stop_box not_set (list table) blank 3 indeterminate
      (record { parsed = λ e. inr (inr (inr refl)) })
