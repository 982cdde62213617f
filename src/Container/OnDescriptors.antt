-- ===== src/Container/OnDescriptors.antt =====
-- Calls of mount by their targets: the predicates, and the functions on files.
use linglong_box.Prelude.{◌≡◌, ℕ, String, Bool, true, false, Option, none, some, List, [], ◌∷◌}
use linglong_box.Kernel.{Fd, Call, mount_at, proc_path, Outcome, done, failed}
use linglong_box.Program.{Program}
use linglong_box.Program.Only.{Only, only_rules, Only-bind, Only-call, Only-value_or}
use linglong_box.Config.{Mount}
use linglong_box.Container.Defs.{value}
use linglong_box.Container.Mounts.{
  create_destination_file, create_destination_directory, create_destination,
  ensure_mount_destination,
}
use linglong_box.Utils.Files.{
  open_file, open_at, made_or_there, mkdir_parts, mkdir, mknod, touch, lstat,
}

-- A call that is no mount, or is made on a target that satisfies the predicate.
unfoldable pub OnTarget : (String → Type 0) → Call → Type 0
OnTarget T (mount_at source target type flags text) = T target
OnTarget T _ = Unit

pub record MountsOn (T : String → Type 0) (c : Call) : Type 0 where
  pub target : OnTarget T c

abbrev pub IsDescriptorPath : String → Type 0
IsDescriptorPath target = (fd : Fd) × (target ≡ proc_path fd)

abbrev pub IsOnDescriptor : Call → Type 0
IsOnDescriptor = MountsOn IsDescriptorPath

abbrev pub OnDescriptors : {A : Type 0} → Program A → Type 0
OnDescriptors m = Only (MountsOn IsDescriptorPath) m

module _ {T : String → Type 0} where
  pub open_file-OnTargets : (path : String) (flag : ℕ) → Only (MountsOn T) (open_file path flag)
  unfolding OnTarget open_file
  open_file-OnTargets path flag = search only_rules

  pub open_at-OnTargets :
      (root : Fd) (path : String) (flag : ℕ) → Only (MountsOn T) (open_at root path flag)
  unfolding OnTarget open_at
  open_at-OnTargets root path flag = search only_rules

  pub made_or_there-OnTargets : (r : Outcome Unit) → Only (MountsOn T) (made_or_there r)
  unfolding OnTarget made_or_there
  made_or_there-OnTargets (done _) = search only_rules
  made_or_there-OnTargets (failed e) = search only_rules

  pub mkdir_parts-OnTargets :
      (current : Fd) (parts : List String) (mode : ℕ)
      → Only (MountsOn T) (mkdir_parts current parts mode)
  unfolding OnTarget mkdir_parts
  mkdir_parts-OnTargets current [] mode = search only_rules
  mkdir_parts-OnTargets current (part ∷ parts) mode =
      search (only_rules, made_or_there-OnTargets, λ (fd : Fd). mkdir_parts-OnTargets fd parts mode)

  pub mkdir-OnTargets :
      (root : Fd) (parts : List String) (mode : ℕ) → Only (MountsOn T) (mkdir root parts mode)
  unfolding OnTarget mkdir
  mkdir-OnTargets root parts mode = search (only_rules, mkdir_parts-OnTargets)

  pub mknod-OnTargets :
      (root : Fd) (path : String) (mode dev : ℕ) → Only (MountsOn T) (mknod root path mode dev)
  unfolding OnTarget mknod
  mknod-OnTargets root path mode dev = search only_rules

  pub touch-OnTargets : (root : Fd) (path : String) → Only (MountsOn T) (touch root path)
  unfolding OnTarget touch
  touch-OnTargets root path = search only_rules

  pub lstat-OnTargets : (fd : Fd) → Only (MountsOn T) (lstat fd)
  unfolding OnTarget lstat
  lstat-OnTargets fd = search only_rules

pub ruleset only_calls = (
  only_rules, open_file-OnTargets, open_at-OnTargets, mkdir-OnTargets, mknod-OnTargets,
  touch-OnTargets, lstat-OnTargets,
)

module _ {T : String → Type 0} where
  pub value-OnTargets : {A : Type 0} (o : Option A) → Only (MountsOn T) (value o)
  value-OnTargets none = search only_rules
  value-OnTargets (some a) = search only_rules

  create_destination-OnTargets :
      (file : Bool) (root : Fd) (destination : String)
      → Only (MountsOn T) (create_destination file root destination)
  unfolding OnTarget create_destination_file create_destination_directory
  create_destination-OnTargets true root destination = search only_calls
  create_destination-OnTargets false root destination = search only_calls

  pub ensure_mount_destination-OnTargets :
      (file : Bool) (root : Fd) (m : Mount)
      → Only (MountsOn T) (ensure_mount_destination file root m)
  unfolding OnTarget ensure_mount_destination
  ensure_mount_destination-OnTargets file root m =
      search (only_calls, value-OnTargets, create_destination-OnTargets)
