-- ===== src/Config.antt =====
-- src/linyaps_box/config.h: the container configuration. `parse_mount_options` and the parser of
-- config.cpp are in the modules below. A path is its text; an `int`, `uint` or flag word is a number.
pub mod MountOptions
pub mod Parser
use linglong_box.Prelude.{ℕ, String, Bool, Option, List}

pub record Console : Type 0 where
  pub height : ℕ
  pub width : ℕ

-- `env` is a map: at most one entry for a name. The parser never fills `rlimits`,
-- `apparmor_profile` and `capabilities`, and nothing reads them; they are left out.
pub record Process : Type 0 where
  pub terminal : Bool
  pub console : Console
  pub cwd : String
  pub env : List (String × String)
  pub args : List String
  pub no_new_privileges : Bool
  pub oom_score_adj : Option ℕ
  pub uid : ℕ
  pub gid : ℕ
  pub umask : Option ℕ
  pub additional_gids : Option (List ℕ)

pub data NamespaceType : Type 0 where
  invalid ipc uts mount pid net user cgroup : NamespaceType

pub record Namespace : Type 0 where
  pub type : NamespaceType
  pub path : String

pub record IdMapping : Type 0 where
  pub host_id : ℕ
  pub container_id : ℕ
  pub size : ℕ

pub record Hook : Type 0 where
  pub path : String
  pub args : List String
  pub env : List (String × String)
  pub timeout : ℕ

pub record Hooks : Type 0 where
  pub prestart : List Hook
  pub create_runtime : List Hook
  pub create_container : List Hook
  pub start_container : List Hook
  pub poststart : List Hook
  pub poststop : List Hook

-- `text` is the member `data`.
pub record Mount : Type 0 where
  pub source : Option String
  pub destination : Option String
  pub type : String
  pub flags : ℕ
  pub propagation_flags : ℕ
  pub text : String

pub record Root : Type 0 where
  pub path : String
  pub readonly : Bool

pub record Config : Type 0 where
  pub process : Process
  pub namespaces : List Namespace
  pub uid_mappings : List IdMapping
  pub gid_mappings : List IdMapping
  pub hooks : Hooks
  pub mounts : List Mount
  pub root : Root
