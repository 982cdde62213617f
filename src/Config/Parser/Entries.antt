-- ===== src/Config/Parser/Entries.antt =====
-- src/linyaps_box/config.cpp: the parts of the configuration that are elements of arrays.
use Prim.Native.Char.{code}
use Prim.Native.Nat.{Ordering}
use Prim.Native.String.{compare}
use linglong_box.Prelude.{
  ℕ, String, true, false, Option, none, some, List, [], ◌∷◌, ◌==◌, str_eq, if◌then◌else◌,
}
use linglong_box.Config.{
  NamespaceType, ipc, uts, mount, pid, net, user, cgroup, Namespace, IdMapping, Hook, Mount,
}
use linglong_box.Config.MountOptions.{parse_mount_options, Parsed}
use linglong_box.Json.{Json, or_throw}
use linglong_box.Result.{Result, ok, err, runtime_error, ◌>>=◌}

-- What members hold that the code leaves unset.
pub record Unset : Type 0 where
  pub flags : ℕ
  pub propagation_flags : ℕ
  pub timeout : ℕ

-- `map[key] = value` of a `std::map`, in the order of the keys.
unfoldable pub assign : String → String → List (String × String) → List (String × String)
assign key value [] = (key, value) ∷ []
assign key value ((k, v) ∷ rest) = elim (compare key k) [
  | Ordering.lt ↦ (key, value) ∷ (k, v) ∷ rest
  | Ordering.eq ↦ (key, value) ∷ rest
  | Ordering.gt ↦ (k, v) ∷ assign key value rest
]

-- The texts in front of the first `=` and behind it.
unfoldable pub split_equals : String → Option (String × String)
split_equals String.[] = none
split_equals (String.◌∷◌ c s) = elim (code c == b'=') [
  | true ↦ some ("", s)
  | false ↦ elim (split_equals s) [ none ↦ none | some p ↦ some (String.◌∷◌ c p.0, p.1) ]
]

-- The loop over the entries of an `env` array.
unfoldable pub env_of : List String → List (String × String) → Result (List (String × String))
env_of [] env = ok env
env_of (e ∷ entries) env = elim (split_equals e) [
  | none ↦ err (runtime_error "invalid env entry")
  | some p ↦ env_of entries (assign p.0 p.1 env)
]

unfoldable pub namespace_type : String → Result NamespaceType
namespace_type type =
    if str_eq type "pid"
    then ok pid
    else if str_eq type "network"
    then ok net
    else if str_eq type "ipc"
    then ok ipc
    else if str_eq type "uts"
    then ok uts
    else if str_eq type "mount"
    then ok mount
    else if str_eq type "user"
    then ok user
    else if str_eq type "cgroup"
    then ok cgroup
    else err (runtime_error "unsupported namespace type")

-- A value that is read if the member is there.
abbrev pub optional {ℓ κ} : {A : Type ℓ} {B : Type κ} → Option A → B → (A → Result B) → Result B
optional none d f = ok d
optional (some a) d f = f a

abbrev pub required {ℓ} : {A : Type ℓ} → Option A → Result A
required none = err (runtime_error "property `type` is REQUIRED for linux namespaces")
required (some a) = ok a

module _ (J : Json) where
  abbrev pub text_at : J.Value → String → Result String
  text_at v key = do m ← or_throw (J.member v key); or_throw (J.get_string m)

  abbrev pub number_at : J.Value → String → Result ℕ
  number_at v key = do m ← or_throw (J.member v key); or_throw (J.get_number m)

  unfoldable pub namespace_of : J.Value → Result Namespace
  namespace_of ns = do
    type_value ← required (J.member ns "type")
    name ← or_throw (J.get_string type_value)
    type ← namespace_type name
    path ← optional (J.member ns "path") "" (λ p. or_throw (J.get_string p))
    ok (record { type = type; path = path })

  pub mapping_of : J.Value → Result IdMapping
  mapping_of m = do
    host_id ← number_at m "hostID"
    container_id ← number_at m "containerID"
    size ← number_at m "size"
    ok (record { host_id = host_id; container_id = container_id; size = size })

  pub hook_of : Unset → J.Value → Result Hook
  hook_of unset h = do
    path ← text_at h "path"
    args_value ← or_throw (J.member h "args")
    args ← or_throw (J.get_strings args_value)
    env ← optional (J.member h "env") [] (λ e. or_throw (J.get_strings e) >>= λ es. env_of es [])
    timeout ← optional (J.member h "timeout") unset.timeout (λ t. or_throw (J.get_number t))
    ok (record { path = path; args = args; env = env; timeout = timeout })

  -- The three members that the options set, if there are any.
  pub options_of : Unset → Option J.Value → Result Parsed
  options_of unset none =
      ok (record { flags = unset.flags; propagation_flags = unset.propagation_flags; text = "" })
  options_of unset (some v) = do
    options ← or_throw (J.get_strings v)
    ok (parse_mount_options options)

  pub mount_of : Unset → J.Value → Result Mount
  mount_of unset m = do
    source ←
        optional (J.member m "source") none (λ s. or_throw (J.get_string s) >>= λ t. ok (some t))
    destination ←
        optional (J.member m "destination") none
          (λ s. or_throw (J.get_string s) >>= λ t. ok (some t))
    type ← text_at m "type"
    p ← options_of unset (J.member m "options")
    ok (record {
      source = source;
      destination = destination;
      type = type;
      flags = p.flags;
      propagation_flags = p.propagation_flags;
      text = p.text;
    })
