-- ===== src/Status.antt =====
-- src/linyaps_box/container_status.h and status_directory.h: the status of a container, and the
-- interface of a directory of statuses.
use linglong_box.Prelude.{ℕ, String, List}
use linglong_box.Program.{Program}

-- The enumerators, and `unknown n` for the value 4 + n of the underlying type, which no enumerator has.
pub data RuntimeStatus : Type 0 where
  creating created running stopped : RuntimeStatus
  unknown : ℕ → RuntimeStatus

-- `created_at` is the member `created`.
pub record Status : Type 0 where
  pub id : String
  pub pid : ℕ
  pub status : RuntimeStatus
  pub bundle : String
  pub created_at : String
  pub owner : ℕ
  pub annotations : List (String × String)

pub record StatusDirectory : Type 0 where
  pub write : Status → Program Unit
  pub read : String → Program Status
  pub remove : String → Program Unit
  pub list : Program (List String)
