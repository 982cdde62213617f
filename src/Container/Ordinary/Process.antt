-- ===== src/Container/Ordinary/Process.antt =====
-- What is ordinary in the process that becomes a container.
use linglong_box.Prelude.{refl, ℕ, zero, suc, Option, none, some, List}
use linglong_box.Program.Avoids.{
  avoids_rules, avoids_ret, avoids_throw, avoids_call, Avoids-if, Avoids-outcome,
}
use linglong_box.Container.Descriptors.{close_other_fds}
use linglong_box.Container.Process.{set_groups, unmount_all}
use linglong_box.Container.Lifecycle.{wait_for_tracer}
use linglong_box.Container.Ordinary.{IsOrdinary}

pub wait_for_tracer-IsOrdinary : IsOrdinary wait_for_tracer
unfolding wait_for_tracer
wait_for_tracer-IsOrdinary = search avoids_rules

pub close_other_fds-IsOrdinary : (except : List ℕ) → IsOrdinary (close_other_fds except)
unfolding close_other_fds
close_other_fds-IsOrdinary except = search avoids_rules

pub set_groups-IsOrdinary : (gids : Option (List ℕ)) → IsOrdinary (set_groups gids)
unfolding set_groups
set_groups-IsOrdinary none = search avoids_rules
set_groups-IsOrdinary (some gids) = search avoids_rules

pub unmount_all-IsOrdinary : (layers : ℕ) → IsOrdinary (unmount_all layers)
unfolding unmount_all
unmount_all-IsOrdinary zero = search avoids_rules
unmount_all-IsOrdinary (suc layers) = avoids_call _ _ refl (
    Avoids-outcome _ (λ _. unmount_all-IsOrdinary layers)
      (λ e. Avoids-if _ _ _ (avoids_ret tt) (avoids_throw _ refl)))
