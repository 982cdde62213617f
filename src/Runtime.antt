-- ===== src/Runtime.antt =====
-- src/linyaps_box/container_ref.cpp and runtime.cpp: references to containers by their id.
use Prim.Native.Nat.{Ordering}
use Prim.Native.String.{compare}
use linglong_box.Prelude.{ℕ, String, Option, none, some, List, [], ◌∷◌, ◌++◌, map}
use linglong_box.Prelude.Decimal.{to_string}
use linglong_box.Config.{Config, Process}
use linglong_box.Kernel.{kill}
use linglong_box.Program.{Program, ret, throw, sys, become, ◌>>=◌}
use linglong_box.Result.{Result, invalid_argument}
use linglong_box.Status.{Status, StatusDirectory}
use linglong_box.Container.Defs.{Container}
use linglong_box.Container.Lifecycle.{construct}

pub record ContainerRef : Type 0 where
  pub id : String
  pub status_dir : StatusDirectory

pub status : ContainerRef → Program Status
status c = c.status_dir.read c.id

-- `container_ref::kill`
pub kill_container : ContainerRef → ℕ → Program Unit
kill_container c signal = do s ← status c; sys (kill s.pid signal) "kill"

-- `container_ref::exec`
pub exec_in : ContainerRef → Process → Program Unit
exec_in c p = do
  s ← status c
  become
      (map some (
          "nsenter"
          ∷ "--target"
          ∷ to_string s.pid
          ∷ "--user"
          ∷ "--mount"
          ∷ "--pid"
          ∷ "--wdns"
          ∷ p.cwd
          ∷ "--preserve-credentials"
          ∷ "--"
          ∷ p.args)
        ++ none ∷ [])
      none "execvp nsenter"

-- The constructor of `runtime_t`; a null pointer is `none`.
abbrev pub runtime : Option StatusDirectory → Program StatusDirectory
runtime none = throw (invalid_argument "status_dir is nullptr")
runtime (some d) = ret d

-- `std::map::insert` keeps the entry that is there, and the order of the keys.
unfoldable pub insert :
    String → ContainerRef → List (String × ContainerRef) → List (String × ContainerRef)
insert key c [] = (key, c) ∷ []
insert key c ((k, d) ∷ rest) = elim (compare key k) [
  | Ordering.lt ↦ (key, c) ∷ (k, d) ∷ rest
  | Ordering.eq ↦ (k, d) ∷ rest
  | Ordering.gt ↦ (k, d) ∷ insert key c rest
]

unfoldable pub refs_of :
    StatusDirectory → List String → List (String × ContainerRef) → List (String × ContainerRef)
refs_of d [] refs = refs
refs_of d (id ∷ ids) refs = refs_of d ids (insert id (record { id = id; status_dir = d }) refs)

-- `runtime_t::containers`
pub containers : StatusDirectory → Program (List (String × ContainerRef))
containers d = do ids ← d.list; ret (refs_of d ids [])

pub record CreateContainerOptions : Type 0 where
  pub bundle : String
  pub config : String
  pub id : String

-- `runtime_t::create_container`
pub create_container :
    (String → Result Config) → StatusDirectory → CreateContainerOptions → Program Container
create_container parse d options = construct parse d options.id options.bundle options.config
