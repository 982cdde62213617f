-- ===== src/Container/Resources.antt =====
-- src/linyaps_box/container.cpp: what start_container_process holds when it is left.
use linglong_box.Prelude.{
  ◌≡◌, refl, sym, ap, ◌∙◌, ℕ, ◌==◌, none, some, List, [], ◌∷◌, ◌++◌, Bool-cases, inl, inr, ==_iff,
}
use linglong_box.Kernel.{Fd, Kernel, Call, socketpair, mmap, munmap, close, clone, print}
use linglong_box.Program.{Program, ret, throw, call, run, of_result, on_throw, scoped, ◌>>=◌}
use linglong_box.Program.Resources.{
  Resource, descriptor, memory, held, given_back, Makes, Makes-ret, Makes-throw, Makes-call,
  Makes-branch, Makes-as, Makes-choice, given_back-first,
}
use linglong_box.Result.{Error, Result, ok, err}
use linglong_box.Utils.Descriptor.{destroy}
use linglong_box.Utils.SocketPair.{open_pair}
use linglong_box.Container.CloneFlag.{generate_clone_flag}
use linglong_box.Container.Defs.{Container}
use linglong_box.Container.Lifecycle.{
  child_stack, destroy_child_stack, cloned, stack_size, stack_top, stack_growth_down,
  start_container_process,
}

abbrev pub owned : Fd → List Resource
owned none = []
owned (some n) = descriptor n ∷ []

-- What the result owns, above what was held before.
abbrev pub remains : List Resource → Result (ℕ × Fd) → List Resource
remains pre (ok (pid, fd)) = owned fd ++ pre
remains pre (err x) = pre

module _ (pre : List Resource) (a b : ℕ) where
  abbrev both : List Resource
  both = descriptor a ∷ descriptor b ∷ pre

  other_end : given_back (descriptor b) both ≡ descriptor a ∷ pre
  other_end = elim (Bool-cases (a == b)) [
    | inl e ↦ rw e (ap (λ (n : ℕ). descriptor n ∷ pre) (sym ((==_iff a b).0 e)))
    | inr e ↦
        rw e (ap (λ (l : List Resource). descriptor a ∷ l) (given_back-first (descriptor b) pre))
  ]

  -- The scopes of the two ends of the socket pair, and that of the stack.
  abbrev in_ends : Program (ℕ × Fd) → Program (ℕ × Fd)
  in_ends m = on_throw (destroy (some a)) (scoped (destroy (some b)) m)

  abbrev in_stack : ℕ → Program ℕ → Program (ℕ × Fd)
  in_stack low m = scoped (destroy_child_stack low) (m >>= λ child_pid. ret (child_pid, some a))

  thrown-Makes : (x : Error) → Makes both (in_ends (throw x)) (remains pre)
  unfolding destroy
  thrown-Makes x = Makes-call (close b) _ λ _. Makes-call (close a) _ λ _.
      Makes-throw x (ap (given_back (descriptor a)) other_end ∙ given_back-first (descriptor a) pre)

  returned-Makes : (pid : ℕ) → Makes both (in_ends (ret (pid, some a))) (remains pre)
  unfolding destroy
  returned-Makes pid = Makes-call (close b) _ λ _. Makes-ret (pid, some a) other_end

  stack-thrown-Makes :
      (low : ℕ) (x : Error)
      → Makes (memory low stack_size ∷ both) (in_ends (in_stack low (throw x))) (remains pre)
  unfolding destroy_child_stack
  stack-thrown-Makes low x =
      let back = given_back-first (memory low stack_size) both in
      Makes-branch (munmap low stack_size) _ (λ _. Makes-as back (thrown-Makes x))
        (λ _. Makes-as back (Makes-call (print "munmap") _ λ _. thrown-Makes x))

  stack-returned-Makes :
      (low pid : ℕ)
      → Makes (memory low stack_size ∷ both) (in_ends (in_stack low (ret pid))) (remains pre)
  unfolding destroy_child_stack
  stack-returned-Makes low pid =
      let back = given_back-first (memory low stack_size) both in
      Makes-branch (munmap low stack_size) _ (λ _. Makes-as back (returned-Makes pid))
        (λ _. Makes-as back (Makes-call (print "munmap") _ λ _. returned-Makes pid))

  abbrev started : Result ℕ → Program (ℕ × Fd)
  started flags = do
    flag ← of_result flags
    stack_low ← child_stack
    in_stack stack_low (call (clone flag (stack_top stack_growth_down stack_low)) ret >>= cloned)

  started-Makes : (flags : Result ℕ) → Makes both (in_ends (started flags)) (remains pre)
  unfolding child_stack
  started-Makes (err x) = thrown-Makes x
  started-Makes (ok flag) =
      Makes-branch (mmap stack_size) _
        (λ low.
          Makes-branch (clone flag (stack_top stack_growth_down low)) _
            (λ pid.
              Makes-choice (λ m. in_ends (in_stack low m)) (pid == 0) _ _ (stack-thrown-Makes low _)
                (stack-returned-Makes low pid))
            (λ _. stack-thrown-Makes low _))
        (λ _. thrown-Makes _)

start_container_process-Makes :
    (c : Container) (pre : List Resource) → Makes pre (start_container_process c) (remains pre)
unfolding start_container_process open_pair
start_container_process-Makes c pre =
    Makes-branch socketpair _
      (λ fds. started-Makes pre fds.0 fds.1 (generate_clone_flag c.config.namespaces))
      (λ _. Makes-throw _ refl)

-- However start_container_process ends, and whatever the system answers, it holds no descriptor of its
-- socket pair and no memory of a stack that it did not hold before, but for the descriptor that it
-- returns. A call of close or munmap is taken to give back what it is given, whatever it answers.
pub start_container_process-held :
    (c : Container) (K : Kernel) (h : List Call)
    → held K (run K h (start_container_process c)).1
      ≡ remains (held K h) (run K h (start_container_process c)).0
start_container_process-held c K h = (start_container_process-Makes c (held K h)).at K h refl
