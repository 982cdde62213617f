-- ===== src/Utils/SocketPair.antt =====
-- src/linyaps_box/utils/socketpair.h.
use linglong_box.Prelude.{ℕ, String, ◌<>◌, some}
use linglong_box.Prelude.Decimal.{to_string}
use linglong_box.Kernel.{Fd, socketpair}
use linglong_box.Program.{Program, ret, sys, ◌>>=◌}

-- The text of the exception.
pub socketpair_text : ℕ → ℕ → ℕ → String
socketpair_text domain type protocol =
    "socketpair("
    <> (to_string domain <> (", " <> (to_string type <> (", " <> (to_string protocol <> ")")))))

unfoldable pub open_pair : ℕ → ℕ → ℕ → Program (Fd × Fd)
open_pair domain type protocol = do
  fds ← sys socketpair (socketpair_text domain type protocol)
  ret (some fds.0, some fds.1)
