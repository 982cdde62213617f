-- ===== src/Config/Parser/Tests.antt =====
-- A JSON document given by the paths of its values, and examples of the laws of the parser on it.
use linglong_box.Prelude.{
  ◌≡◌, refl, ◌⊎◌, All, ◌+◌, ℕ, String, ◌<>◌, false, Option, none, some, List, [], ◌∷◌, str_eq,
  if◌then◌else◌,
}
use linglong_box.Result.{ok, err, invalid_argument}
use linglong_box.Linux.Clone
use linglong_box.Semver.{
  find_if, find_from, substr, skip_spaces, signed_value, stoi_sign, stoi, is_plus, parse_suffix,
  parse_patch, parse_minor, parse, is_compatible_with,
}
use linglong_box.Json.{Json, entry, at, or_throw}
use linglong_box.Config.{Config, pid, mount}
use linglong_box.Config.Parser.{
  parse_config, parse_1_2_0, check_version, parse_console, parse_process, parse_namespaces,
  parse_mappings, get_hooks, parse_hooks, parse_mounts, parse_root,
}
use linglong_box.Config.Parser.Entries.{
  Unset, namespace_of, namespace_type, env_of, assign, split_equals,
}
use linglong_box.Config.Parser.Environment.{env_of-assignments}
use linglong_box.Container.Hooks.{assignments}
use mathlib.Core.List.{Mem}
use linglong_box.Config.Parser.Laws.{Named, parse_config-version, parse_config-namespaces}
use linglong_box.Container.CloneFlag.{generate_clone_flag}
use linglong_box.Container.CloneFlag.Laws.{total}

abbrev texts : List (String × String)
texts =
    ("/ociVersion", "1.1.5")
    ∷ ("/process/cwd", "/")
    ∷ ("/root/path", "rootfs")
    ∷ ("/linux/namespaces/0/type", "pid")
    ∷ ("/linux/namespaces/1/type", "mount")
    ∷ []

abbrev others : List (String × ℕ)
others =
    ("/process", 0)
    ∷ ("/process/args", 0)
    ∷ ("/process/user", 0)
    ∷ ("/process/user/uid", 1000)
    ∷ ("/process/user/gid", 100)
    ∷ ("/root", 0)
    ∷ ("/linux", 0)
    ∷ ("/linux/namespaces", 0)
    ∷ []

abbrev present : Option String → Option ℕ → String → Option String
present none none path = none
present _ _ path = some path

abbrev document : Json
document = record {
  Value = String;
  parse = λ text. some "";
  dump = λ v. v;
  member =
      λ v key. let path = v <> ("/" <> key) in present (entry texts path) (entry others path) path;
  elements = λ v. if str_eq v "/linux/namespaces" then (v <> "/0") ∷ (v <> "/1") ∷ [] else [];
  get_string = λ v. entry texts v;
  get_bool = λ v. none;
  get_number = λ v. entry others v;
  get_strings = λ v. some [];
  get_numbers = λ v. none;
  get_map = λ v. none;
  of_string = λ s. s;
  of_number = λ n. "";
  of_map = λ m. "";
  object = λ fields. "";
  array = λ values. "";
}

abbrev unset : Unset
unset = record { flags = 0; propagation_flags = 0; timeout = 0 }

abbrev config : Config
config = record {
  process = record {
    terminal = false;
    console = record { height = 0; width = 0 };
    cwd = "/";
    env = [];
    args = [];
    no_new_privileges = false;
    oom_score_adj = none;
    uid = 1000;
    gid = 100;
    umask = none;
    additional_gids = none;
  };
  namespaces = record { type = pid; path = "" } ∷ record { type = mount; path = "" } ∷ [];
  uid_mappings = [];
  gid_mappings = [];
  hooks = record {
    prestart = [];
    create_runtime = [];
    create_container = [];
    start_container = [];
    poststart = [];
    poststop = [];
  };
  mounts = [];
  root = record { path = "rootfs"; readonly = false };
}

accepted : parse_config document unset "" ≡ ok config
unfolding parse_config parse_1_2_0 check_version parse_console parse_process parse_namespaces
    parse_mappings get_hooks parse_hooks parse_mounts parse_root at namespace_of namespace_type
    find_if find_from substr skip_spaces signed_value stoi_sign stoi is_plus parse_suffix
    parse_patch parse_minor parse is_compatible_with
accepted = refl

parse_config-version_example :
    (j : String) × (or_throw (document.parse "") ≡ ok j) × Named document unset j
parse_config-version_example = parse_config-version document unset "" config accepted

parse_config-namespaces_example :
    (generate_clone_flag config.namespaces ≡ ok (Clone.sigchld + total config.namespaces))
    ⊎ (generate_clone_flag config.namespaces ≡ err (invalid_argument "duplicate namespace"))
parse_config-namespaces_example = parse_config-namespaces document unset "" config accepted

abbrev env_entries : List String
env_entries = "PATH=/bin" ∷ "A=b=c" ∷ "PATH=/usr/bin" ∷ []

env_parsed : env_of env_entries [] ≡ ok (("A", "b=c") ∷ ("PATH", "/usr/bin") ∷ [])
unfolding env_of assign split_equals
env_parsed = refl

env_of-assignments_example :
    All (λ a. Mem a env_entries) (assignments (("A", "b=c") ∷ ("PATH", "/usr/bin") ∷ []))
env_of-assignments_example =
    env_of-assignments env_entries (("A", "b=c") ∷ ("PATH", "/usr/bin") ∷ []) env_parsed
