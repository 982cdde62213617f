-- ===== src/Container/Process/Laws.antt =====
-- The calls that turn the process of a container into its command.
use mathlib.Core.Path.{subst}
use linglong_box.Prelude.{
  ◌≡◌, ◌≢◌, refl, sym, ap, ◌∙◌, ℕ, String, Option, none, some, List, [], ◌∷◌, ◌++◌,
}
use linglong_box.Config.{Process}
use linglong_box.Kernel.{
  Call, Kernel, Outcome, done, failed, chdir, setgid, setgroups, setuid, execute,
}
use linglong_box.Result.{ok}
use linglong_box.Program.{run, replaced_or}
use linglong_box.Program.Traces.{
  seen, seen-nil, Always, Always-call, Always-ret, Always-gone, Always-throw,
}
use linglong_box.Program.Traces.Binds.{Always-sys}
use linglong_box.Program.Traces.Follows.{Begins, Follows, Follows-Always, Follows-bind}
use linglong_box.Program.Returns.{Returns, returns_rules, Returns-throw, Returns-gone}
use linglong_box.Container.Process.{process_args, process_env, set_groups, execute_process}

abbrev itself : Call → List Call
itself c = c ∷ []

seen-itself : (h : List Call) → seen itself h ≡ h
unfolding seen
seen-itself [] = refl
seen-itself (c ∷ h) = ap (λ (l : List Call). c ∷ l) (seen-itself h)

groups_calls : Option (List ℕ) → List Call
groups_calls none = []
groups_calls (some gids) = setgroups gids ∷ []

-- The working directory, the group, the other groups if there are any, the user, and the command;
-- the group that is set is the number of the user.
pub process_calls : Process → List Call
process_calls p =
    chdir p.cwd
    ∷ setgid p.uid
    ∷ (groups_calls p.additional_gids
        ++ (setuid p.uid ∷ execute (process_args p) (some (process_env p)) ∷ []))

set_groups-Follows : (gids : Option (List ℕ)) → Follows itself (set_groups gids) (groups_calls gids)
unfolding set_groups groups_calls
set_groups-Follows none = Follows-Always itself (Always-ret itself tt)
set_groups-Follows (some gids) =
    Follows-Always itself (Always-sys itself (setgroups gids) "setgroups")

replaced-Always :
    {A : Type 0} (what : String) (r : Outcome Unit) → Always itself (replaced_or {A = A} what r) []
replaced-Always what (done _) = Always-gone itself
replaced-Always what (failed e) = Always-throw itself _

execute_process-Follows : (p : Process) → Follows itself (execute_process p) (process_calls p)
unfolding execute_process process_calls
execute_process-Follows p =
    Follows-bind itself (Follows-Always itself (Always-sys itself (chdir p.cwd) "chdir")) λ _.
      Follows-bind itself (Follows-Always itself (Always-sys itself (setgid p.uid) "setgid")) λ _.
        Follows-bind itself (set_groups-Follows p.additional_gids) λ _.
          Follows-bind itself (Follows-Always itself (Always-sys itself (setuid p.uid) "setuid"))
            λ _. Follows-Always itself (
              Always-call itself {c = execute (process_args p) (some (process_env p))}
                (replaced-Always "execvpe"))

never_back :
    {A : Type 0} (what : String) (r : Outcome Unit) → Returns {A = A} (λ _. ⊥) (replaced_or what r)
never_back what (done _) = Returns-gone
never_back what (failed e) = Returns-throw _

execute_process-Returns : (p : Process) → Returns (λ _. ⊥) (execute_process p)
unfolding execute_process
execute_process-Returns p = search (returns_rules, never_back) depth 12

-- Whatever the system answers, the calls that execute_process makes are a first part of this list:
-- chdir to the working directory, setgid with the number of the user, setgroups if there are further
-- groups, setuid, and the execution of the command; and execute_process never returns.
pub execute_process-begins :
    (p : Process) (K : Kernel)
    → Begins (process_calls p) (run K [] (execute_process p)).1
      × ((run K [] (execute_process p)).0 ≢ ok tt)
execute_process-begins p K =
    let (ys, begins, shown) = (execute_process-Follows p).always.at K [] in
    let calls : (run K [] (execute_process p)).1 ≡ ys =
      sym (seen-itself _) ∙ shown ∙ ap (λ (l : List Call). l ++ ys) (seen-nil itself) in
    (
      subst (Begins (process_calls p)) (sym calls) begins,
      λ e. (execute_process-Returns p).at K [] tt e,
    )
