-- ===== src/Container/Defs.antt =====
-- What the functions of a container share: its members, and access to optional values.
use linglong_box.Prelude.{String, Option, none, some}
use linglong_box.Config.{Config}
use linglong_box.Program.{Program, ret, throw}
use linglong_box.Result.{logic_error}
use linglong_box.Status.{StatusDirectory}

-- `class container`, with the members that it has from `container_ref`.
pub record Container : Type 0 where
  pub id : String
  pub status_dir : StatusDirectory
  pub bundle : String
  pub config : Config

-- `std::optional::value`
abbrev pub value : {A : Type 0} → Option A → Program A
value none = throw (logic_error "bad optional access")
value (some a) = ret a
