-- ===== src/Config/Parser.antt =====
-- src/linyaps_box/config.cpp: parse_1_2_0 and config::parse.
pub mod Entries
pub mod Environment
pub mod Laws
mod Tests
use linglong_box.Prelude.{
  ℕ, String, Bool, true, false, Option, none, some, List, [], ◌∷◌, codes, str_eq, if◌then◌else◌,
}
use linglong_box.Config.{Console, Process, Namespace, IdMapping, Hook, Hooks, Mount, Root, Config}
use linglong_box.Json.{Json, at, or_throw}
use linglong_box.Result.{Result, ok, err, runtime_error, traverse, ◌>>=◌}
use linglong_box.Semver.{Semver, parse, is_compatible_with}
use linglong_box.Config.Parser.Entries.{Unset, env_of, namespace_of, mapping_of, hook_of, mount_of}

-- The version that the runtime implements: `semver("1.2.0")`.
abbrev pub runtime_version : Semver
runtime_version = record { major = 1; minor = 2; patch = 0; prerelease = []; build = [] }

module _ (J : Json) (unset : Unset) where
  abbrev get_text : J.Value → List String → Result String
  get_text j keys = do v ← or_throw (at J j keys); or_throw (J.get_string v)

  abbrev get_number : J.Value → List String → Result ℕ
  get_number j keys = do v ← or_throw (at J j keys); or_throw (J.get_number v)

  -- A member that is read if it is there, and left at its default if not.
  abbrev get_if {ℓ} : {A : Type ℓ} → J.Value → List String → A → (J.Value → Result A) → Result A
  get_if j keys d get = elim (at J j keys) [ none ↦ ok d | some v ↦ get v ]

  abbrev just {ℓ} : {A : Type ℓ} → Option A → Result (Option A)
  just o = or_throw o >>= λ a. ok (some a)

  -- The test of `ociVersion`.
  pub check_version : J.Value → Result Semver
  check_version j = do
    text ← get_text j ("ociVersion" ∷ [])
    version ← parse (codes text)
    if is_compatible_with runtime_version version
        then ok version
        else err (runtime_error "unsupported OCI version")

  abbrev no_console : Console
  no_console = record { height = 0; width = 0 }

  pub parse_console : J.Value → Bool → Result Console
  parse_console j false = ok no_console
  parse_console j true = get_if j ("process" ∷ "consoleSize" ∷ []) no_console λ v. do
    height ← get_number j ("process" ∷ "consoleSize" ∷ "height" ∷ [])
    width ← get_number j ("process" ∷ "consoleSize" ∷ "width" ∷ [])
    ok (record { height = height; width = width })

  pub parse_process : J.Value → Result Process
  parse_process j = do
    terminal ← get_if j ("process" ∷ "terminal" ∷ []) false (λ v. or_throw (J.get_bool v))
    console ← parse_console j terminal
    cwd ← get_text j ("process" ∷ "cwd" ∷ [])
    env ←
        get_if j ("process" ∷ "env" ∷ []) []
          (λ v. or_throw (J.get_strings v) >>= λ es. env_of es [])
    args_value ← or_throw (at J j ("process" ∷ "args" ∷ []))
    args ← or_throw (J.get_strings args_value)
    no_new_privileges ←
        get_if j ("process" ∷ "noNewPrivileges" ∷ []) false (λ v. or_throw (J.get_bool v))
    oom_score_adj ← get_if j ("process" ∷ "oomScoreAdj" ∷ []) none (λ v. just (J.get_number v))
    uid ← get_number j ("process" ∷ "user" ∷ "uid" ∷ [])
    gid ← get_number j ("process" ∷ "user" ∷ "gid" ∷ [])
    umask ← get_if j ("process" ∷ "user" ∷ "umask" ∷ []) none (λ v. just (J.get_number v))
    additional_gids ←
        get_if j ("process" ∷ "user" ∷ "additionalGids" ∷ []) none (λ v. just (J.get_numbers v))
    ok (record {
      terminal = terminal;
      console = console;
      cwd = cwd;
      env = env;
      args = args;
      no_new_privileges = no_new_privileges;
      oom_score_adj = oom_score_adj;
      uid = uid;
      gid = gid;
      umask = umask;
      additional_gids = additional_gids;
    })

  -- A missing array only gives a warning.
  pub parse_namespaces : J.Value → Result (List Namespace)
  parse_namespaces j =
      get_if j ("linux" ∷ "namespaces" ∷ []) [] (λ v. traverse (namespace_of J) (J.elements v))

  pub parse_mappings : J.Value → String → Result (List IdMapping)
  parse_mappings j key =
      get_if j ("linux" ∷ key ∷ []) [] (λ v. traverse (mapping_of J) (J.elements v))

  -- `get_hooks`
  pub get_hooks : J.Value → String → Result (List Hook)
  get_hooks hooks key = elim (J.member hooks key) [
    | none ↦ ok []
    | some v ↦ traverse (hook_of J unset) (J.elements v)
  ]

  abbrev no_hooks : Hooks
  no_hooks = record {
    prestart = [];
    create_runtime = [];
    create_container = [];
    start_container = [];
    poststart = [];
    poststop = [];
  }

  pub parse_hooks : J.Value → Result Hooks
  parse_hooks j = get_if j ("hooks" ∷ []) no_hooks λ hooks. do
    prestart ← get_hooks hooks "prestart"
    create_runtime ← get_hooks hooks "createRuntime"
    create_container ← get_hooks hooks "createContainer"
    start_container ← get_hooks hooks "startContainer"
    poststart ← get_hooks hooks "poststart"
    poststop ← get_hooks hooks "poststop"
    ok (record {
      prestart = prestart;
      create_runtime = create_runtime;
      create_container = create_container;
      start_container = start_container;
      poststart = poststart;
      poststop = poststop;
    })

  pub parse_mounts : J.Value → Result (List Mount)
  parse_mounts j = get_if j ("mounts" ∷ []) [] (λ v. traverse (mount_of J unset) (J.elements v))

  pub parse_root : J.Value → Result Root
  parse_root j = do
    path ← get_text j ("root" ∷ "path" ∷ [])
    readonly ← get_if j ("root" ∷ "readonly" ∷ []) false (λ v. or_throw (J.get_bool v))
    ok (record { path = path; readonly = readonly })

  pub parse_1_2_0 : J.Value → Result Config
  parse_1_2_0 j = do
    version ← check_version j
    process ← parse_process j
    namespaces ← parse_namespaces j
    uid_mappings ← parse_mappings j "uidMappings"
    gid_mappings ← parse_mappings j "gidMappings"
    hooks ← parse_hooks j
    mounts ← parse_mounts j
    root ← parse_root j
    ok (record {
      process = process;
      namespaces = namespaces;
      uid_mappings = uid_mappings;
      gid_mappings = gid_mappings;
      hooks = hooks;
      mounts = mounts;
      root = root;
    })

  -- `config::parse`, on the text of the stream.
  pub parse_config : String → Result Config
  parse_config text = do j ← or_throw (J.parse text); parse_1_2_0 j
