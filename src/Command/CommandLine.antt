-- ===== src/Command/CommandLine.antt =====
-- src/linyaps_box/command/options.cpp: what the command line may hold, and what is made of it. The
-- parser itself is the CLI11 library's: a function from what is declared and the arguments to what it
-- stores.
pub mod Laws
use linglong_box.Prelude.{
  ℕ, String, ◌<>◌, Bool, true, false, Option, none, some, List, [], ◌∷◌, str_eq, if◌then◌else◌,
}
use linglong_box.Prelude.Decimal.{to_string}
use linglong_box.Kernel.{geteuid, get_env}
use linglong_box.Program.{Program, ret, sys, ◌>>=◌}
use linglong_box.Utils.Paths.{append}
use linglong_box.Command.{
  OutputFormat, table, json, Chosen, not_set, list, run, exec, kill, Options,
}

-- `add_option`: the names, whether the option is required, its default, and the texts that a
-- `CheckedTransformer` takes.
pub record Declared : Type 0 where
  pub names : String
  pub required : Bool
  pub default_val : Option String
  pub choices : List String

-- `add_subcommand`
pub record Subcommand : Type 0 where
  pub name : String
  pub options : List Declared

abbrev plain : String → Declared
plain names = record { names = names; required = false; default_val = none; choices = [] }

abbrev required : String → Declared
required names = record { names = names; required = true; default_val = none; choices = [] }

abbrev formats : List (String × OutputFormat)
formats = ("table", table) ∷ ("json", json) ∷ []

-- SIGTERM and SIGSTOP
abbrev signals : List (String × ℕ)
signals = ("TERM", 15) ∷ ("STOP", 19) ∷ []

abbrev keys : {A : Type 0} → List (String × A) → List String
keys [] = []
keys (e ∷ rest) = e.0 ∷ keys rest

abbrev pub subcommands : List Subcommand
subcommands =
    record {
      name = "list";
      options =
          record {
            names = "-f,--format";
            required = false;
            default_val = some "table";
            choices = keys formats;
          }
          ∷ [];
    }
    ∷ record {
      name = "run";
      options =
          required "CONTAINER"
          ∷ record (plain "-b,--bundle") { default_val = some "." }
          ∷ record (plain "-f,--config") { default_val = some "config.json" }
          ∷ [];
    }
    ∷ record {
      name = "exec";
      options = plain "-u,--user" ∷ plain "--cwd" ∷ required "CONTAINER" ∷ required "COMMAND" ∷ [];
    }
    ∷ record {
      name = "kill";
      options =
          record {
            names = "--signal";
            required = false;
            default_val = some "TERM";
            choices = keys signals;
          }
          ∷ required "CONTAINER"
          ∷ [];
    }
    ∷ []

-- What CLI11 gives: the code of `exit` if `parse` threw, which subcommands were parsed, and the values
-- that were stored, by subcommand and option; the first for an option of the program itself is "".
pub record CliResult : Type 0 where
  pub exit_code : Option ℕ
  pub parsed : String → Bool
  pub value : String → String → String
  pub values : String → String → List String

abbrev pub Cli : Type 0
Cli = Declared → List Subcommand → List String → CliResult

unfoldable pub default_root : Option String → ℕ → String
default_root (some runtime_dir) euid = append (append runtime_dir "linglong") "box"
default_root none euid =
    append (append (append (append (append "/" "run") "user") (to_string euid)) "linglong") "box"

-- A text that `CheckedTransformer` has let through, by the entry of its table.
abbrev transformed : {A : Type 0} → A → List (String × A) → String → A
transformed default [] text = default
transformed default (e ∷ rest) text =
    let later = transformed default rest text in if str_eq e.0 text then e.1 else later

-- The member `command`, which keeps `unset`, what it holds before, if no subcommand was parsed; with it
-- the options of the subcommand.
unfoldable pub chosen : Chosen → CliResult → Chosen
chosen unset r =
    if r.parsed "list"
    then list (transformed table formats (r.value "list" "-f,--format"))
    else if r.parsed "run"
    then run (record {
      id = r.value "run" "CONTAINER";
      bundle = r.value "run" "-b,--bundle";
      config = r.value "run" "-f,--config";
    })
    else if r.parsed "exec"
    then exec (record {
      user = r.value "exec" "-u,--user";
      cwd = r.value "exec" "--cwd";
      id = r.value "exec" "CONTAINER";
      command = r.values "exec" "COMMAND";
    })
    else if r.parsed "kill"
    then kill (record {
      container = r.value "kill" "CONTAINER";
      signal = transformed 15 signals (r.value "kill" "--signal");
    })
    else unset

unfoldable pub options_of : Chosen → CliResult → Options
options_of unset r = record {
  root = r.value "" "--root";
  return_code = r.exit_code;
  command = chosen unset r;
}

-- `parse`
unfoldable pub parse : Cli → Chosen → List String → Program Options
parse cli unset argv = do
  euid ← sys geteuid "geteuid"
  runtime_dir ← sys (get_env "XDG_RUNTIME_DIR") "getenv"
  let root : Declared = record (plain "--root") {
    default_val = some (default_root runtime_dir euid);
  }
  ret (options_of unset (cli root subcommands argv))
