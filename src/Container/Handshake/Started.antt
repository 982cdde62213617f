-- ===== src/Container/Handshake/Started.antt =====
-- src/linyaps_box/container.cpp: the two processes that a run of a container consists of.
use linglong_box.Prelude.{ℕ, ◌≢◌, refl, true, []}
use linglong_box.Config.{Process}
use linglong_box.Kernel.{Fd}
use linglong_box.Program.{throw}
use linglong_box.Program.Sessions.{container_side, runtime_side}
use linglong_box.Program.Sessions.Agreement.{behind}
use linglong_box.Program.Sessions.Systems.{Pair, Reaches}
use linglong_box.Program.Sessions.Systems.Keeps.{Inv, agreed, Reaches-Inv}
use linglong_box.Program.Sessions.Systems.Progress.{Inv-left-calm, Inv-right-calm}
use linglong_box.Result.{unexpected_sync_message}
use linglong_box.Container.Defs.{Container}
use linglong_box.Container.Lifecycle.{clone_body, run_started}
use linglong_box.Container.Mounter.{Unset}
use linglong_box.Container.Handshake.Container.{clone_body-Conforms}
use linglong_box.Container.Handshake.Runtime.{IsSilentDirectory, run_started-Conforms}
use linglong_box.Container.Handshake.Scripts.{script}

-- Just after `clone`: the process of the container at `clone_fn`, with a copy of each descriptor of the
-- runtime, the runtime in `run`, its copy of the other end closed, and nothing sent yet.
abbrev pub started : ℕ → ℕ → Unset → Container → Process → ℕ → Fd → Fd → Pair Unit ℕ
started retries layers unset c process child_pid child_end runtime_end = record {
  left = clone_body retries layers unset c process child_end;
  right = run_started retries c child_pid runtime_end;
  to_left = [];
  to_right = [];
  left_has_copy = true;
}

different : container_side ≢ runtime_side
different e = cc

module _ (retries layers : ℕ) (unset : Unset) (c : Container) (process : Process) (child_pid : ℕ)
    (child_end runtime_end : Fd) (silent : IsSilentDirectory c.status_dir) where
  started-Inv :
      Inv container_side runtime_side child_end runtime_end
        (started retries layers unset c process child_pid child_end runtime_end)
  started-Inv = record {
    mine = script c.config.hooks;
    yours = script c.config.hooks;
    mine_left = [];
    yours_left = [];
    left_conforms = clone_body-Conforms retries c child_end layers unset process;
    right_conforms = run_started-Conforms retries c silent runtime_end child_pid;
    standing = agreed (behind refl refl);
  }

  -- Over a status directory that uses no socket, in no order of the moves of the process of a container
  -- and the runtime does one of them read a message that it does not expect, whatever the system
  -- answers.
  pub started-expected :
      (p : Pair Unit ℕ) (wanted got : ℕ)
      → Reaches child_end runtime_end
          (started retries layers unset c process child_pid child_end runtime_end)
          p
      → (p.left ≢ throw (unexpected_sync_message wanted got))
        × (p.right ≢ throw (unexpected_sync_message wanted got))
  started-expected p wanted got path =
      let inv = Reaches-Inv different started-Inv path in
      (
        λ e. let calm = Inv-left-calm different p inv _ e in absurd cc,
        λ e. let calm = Inv-right-calm different p inv _ e in absurd cc,
      )
