-- ===== src/Command.antt =====
-- src/linyaps_box/command and app.cpp: the commands, on options that are parsed already. The parser
-- of the command line is the CLI11 library's.
pub mod Laws
pub mod CommandLine
mod Tests
use linglong_box.Utils.Paths.{quoted}
use linglong_box.Prelude.{
  ℕ, String, ◌<>◌, Bool, Option, none, some, List, [], ◌∷◌, str_eq, if◌then◌else◌,
}
use linglong_box.Config.{Process}
use linglong_box.Config.Parser.{parse_config}
use linglong_box.Config.Parser.Entries.{Unset}
use linglong_box.Json.{Json}
use linglong_box.Kernel.{print}
use linglong_box.Program.{Program, ret, throw, call, sys, of_result, ◌>>=◌, ◌>>◌, catch}
use linglong_box.Result.{runtime_error, logic_error}
use linglong_box.Status.{Status, StatusDirectory}
use linglong_box.StatusDirectory.{open_directory}
use linglong_box.Runtime.{ContainerRef, status, exec_in, runtime, containers, create_container}
use linglong_box.Container.Lifecycle.{run_container}
use linglong_box.Printers.{Printed, json_statuses, table_statuses}

pub data OutputFormat : Type 0 where
  table json : OutputFormat

pub record ExecOptions : Type 0 where
  pub user : String
  pub cwd : String
  pub id : String
  pub command : List String

pub record RunOptions : Type 0 where
  pub id : String
  pub bundle : String
  pub config : String

pub record KillOptions : Type 0 where
  pub container : String
  pub signal : ℕ

-- The member `command` of `options`, with the options that belong to it.
pub data Chosen : Type 0 where
  not_set : Chosen
  list : OutputFormat → Chosen
  exec : ExecOptions → Chosen
  run : RunOptions → Chosen
  kill : KillOptions → Chosen

pub record Options : Type 0 where
  pub root : String
  pub return_code : Option ℕ
  pub command : Chosen

abbrev pub find : String → List (String × ContainerRef) → Program ContainerRef
find key [] = throw (runtime_error "container not found")
find key ((k, c) ∷ rest) = let later = find key rest in if str_eq k key then ret c else later

-- The members that `exec` leaves at their defaults; `uid` and `gid` are unset, and not read.
abbrev pub exec_process : ExecOptions → Process
exec_process o = record {
  terminal = Bool.false;
  console = record { height = 0; width = 0 };
  cwd = o.cwd;
  env = [];
  args = o.command;
  no_new_privileges = Bool.false;
  oom_score_adj = none;
  uid = 0;
  gid = 0;
  umask = none;
  additional_gids = none;
}

-- What main logs of its arguments.
unfoldable argv_text : List String → String
argv_text [] = ""
argv_text (arg ∷ args) = " " <> (quoted arg <> argv_text args)

statuses_of : List (String × ContainerRef) → Program (List Status)
statuses_of [] = ret []
statuses_of ((id, c) ∷ rest) = do s ← status c; more ← statuses_of rest; ret (s ∷ more)

module _ (J : Json) where
  pub statuses_text : OutputFormat → List Status → Printed
  statuses_text json statuses = json_statuses J statuses
  statuses_text table statuses = table_statuses statuses

  abbrev open_runtime : String → Program StatusDirectory
  open_runtime root = open_directory J root >>= λ d. runtime (some d)

  pub list_command : String → OutputFormat → Program ℕ
  list_command root format = do
    d ← open_runtime root
    refs ← containers d
    statuses ← statuses_of refs
    sys (print (statuses_text format statuses).0) "print"
    of_result (statuses_text format statuses).1
    ret 0

  pub exec_command : String → ExecOptions → Program Unit
  exec_command root o = do
    d ← open_runtime root
    refs ← containers d
    c ← find o.id refs
    exec_in c (exec_process o)

  pub run_command : ℕ → Unset → String → RunOptions → Program ℕ
  run_command retries unset root o = do
    d ← open_runtime root
    c ←
        create_container (parse_config J unset) d
          (record { bundle = o.bundle; config = o.config; id = o.id })
    run_container retries c

  -- `kill` does nothing yet.
  pub kill_command : String → KillOptions → Program ℕ
  kill_command root o = ret 0

  abbrev unreachable : Program ℕ
  unreachable = throw (logic_error "unreachable")

  pub dispatch : ℕ → Unset → String → Chosen → Program ℕ
  dispatch retries unset root (list format) = list_command root format
  dispatch retries unset root (run o) = run_command retries unset root o
  dispatch retries unset root (exec o) = exec_command root o >> unreachable
  dispatch retries unset root (kill o) = kill_command root o
  dispatch retries unset root not_set = unreachable

  abbrev chosen_code : Program ℕ → Option ℕ → Program ℕ
  chosen_code chosen none = chosen
  chosen_code chosen (some code) = ret code

  -- `main`, behind the parser of the command line. The result `none` is -1.
  pub main : ℕ → Unset → Options → Program (Option ℕ)
  main retries unset o =
      catch
        (chosen_code (dispatch retries unset o.root o.command) o.return_code >>= λ code.
          ret (some code))
        (λ e. call (print "Error") λ _. ret none)
