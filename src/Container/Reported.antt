-- ===== src/Container/Reported.antt =====
-- src/linyaps_box/container.cpp: which process the exit code of a container is waited for.
use linglong_box.Prelude.{
  ◌≡◌, refl, sym, ◌∙◌, ap, ℕ, zero, suc, ◌==◌, ◌||◌, Bool, false, List, [], ◌∷◌, ◌++◌, append_assoc,
  Bool-cases, inl, inr,
}
use linglong_box.Kernel.{Call, Kernel, Outcome, done, failed, waitpid}
use linglong_box.Linux.Errno
use linglong_box.Program.{Program, ret, run, ◌>>=◌}
use linglong_box.Program.Completes.{
  Completes, run_extends, bind-returned, Completes-bind, Completes-scoped,
}
use linglong_box.Program.Retries.{AnsweredAfter, now, later, calls_more}
use linglong_box.Program.Returns.{Returns, Returns-bind, Returns-ret}
use linglong_box.Result.{Result, ok}
use linglong_box.Status.{Status}
use linglong_box.Container.Defs.{Container}
use linglong_box.Container.Lifecycle.{run_container}
use linglong_box.Container.Waiting.{
  waited, wait_while, again_elsewhere, wexitstatus, wait_container_process,
}

-- The answers to `waitpid` after which it is called again: EINTR and EAGAIN.
abbrev pub is_interrupted : Outcome ℕ → Bool
is_interrupted (done status) = false
is_interrupted (failed e) = e == Errno.eintr || e == Errno.eagain

-- The loop has made its calls, and the last was answered with what it returns.
abbrev IsAnswered : Kernel → List Call → ℕ → ℕ → List Call → Type 0
IsAnswered K h pid word calls =
    (n : ℕ) × AnsweredAfter K (waitpid pid) is_interrupted (done word) h n
    × (calls ≡ calls_more h (waitpid pid) (suc n))

module _ (K : Kernel) (pid word : ℕ) where
  -- What an answer `r` leads to, for the rest of the loop.
  waited-IsAnswered :
      (h : List Call) (rest : Program ℕ) (r : Outcome ℕ)
      → K h (waitpid pid) ≡ r
      → ((run K (h ++ waitpid pid ∷ []) rest).0 ≡ ok word
          → IsAnswered K (h ++ waitpid pid ∷ []) pid word (run K (h ++ waitpid pid ∷ []) rest).1)
      → (run K (h ++ waitpid pid ∷ []) (waited again_elsewhere rest r)).0 ≡ ok word
      → IsAnswered K h pid word (run K (h ++ waitpid pid ∷ []) (waited again_elsewhere rest r)).1
  waited-IsAnswered h rest (done status) answer more e =
      let same : status ≡ word = cc in (zero, now (answer ∙ ap (λ (s : ℕ). done s) same), refl)
  waited-IsAnswered h rest (failed n) answer more e = elim (Bool-cases (again_elsewhere n)) [
    | inl again ↦ rw again (
        let (tries, answered, calls) = more (rw again at e) in
        (suc tries, later (rw answer again) answered, calls))
    | inr final ↦ let thrown = rw final at e in absurd cc
  ]

  wait_while-IsAnswered :
      (retries : ℕ) (h : List Call)
      → (run K h (wait_while again_elsewhere retries pid)).0 ≡ ok word
      → IsAnswered K h pid word (run K h (wait_while again_elsewhere retries pid)).1
  unfolding wait_while
  wait_while-IsAnswered zero h e = absurd cc
  wait_while-IsAnswered (suc retries) h e =
      waited-IsAnswered h (wait_while again_elsewhere retries pid) (K h (waitpid pid)) refl
        (wait_while-IsAnswered retries (h ++ waitpid pid ∷ [])) e

ok-injective : {a b : ℕ} → ok a ≡ ok b → a ≡ b
ok-injective e = cc

-- Waiting for the process of a container gives the exit code of the last answer.
wait_container_process-IsAnswered :
    (K : Kernel) (pid retries : ℕ) (h g : List Call) (code : ℕ)
    → run K h (wait_container_process retries pid) ≡ (ok code, g)
    → (word : ℕ) × (code ≡ wexitstatus word) × IsAnswered K h pid word g
unfolding wait_container_process
wait_container_process-IsAnswered K pid retries h g code e =
    let (word, last, loop, same) =
      bind-returned K h (wait_while again_elsewhere retries pid) (λ w. ret (wexitstatus w)) code
        (ap (λ (r : Result ℕ × List Call). r.0) e) in
    let whole : (ok code, g) ≡ (ok (wexitstatus word), last) = sym e ∙ same in
    let value : ok code ≡ ok (wexitstatus word) = ap (λ (r : Result ℕ × List Call). r.0) whole in
    let (n, answered, calls) =
      wait_while-IsAnswered K pid word retries h (ap (λ (r : Result ℕ × List Call). r.0) loop) in
    (
      word,
      ok-injective value,
      (
        n,
        answered,
        ap (λ (r : Result ℕ × List Call). r.1) whole
            ∙ ap (λ (r : Result ℕ × List Call). r.1) (sym loop)
            ∙ calls,
      ),
    )

-- How an exit code comes about, `calls` being those of the run: a status is read, `waitpid` is called
-- for its pid until it is not interrupted, and the code is the exit code in the last answer.
pub record IsReported (c : Container) (K : Kernel) (calls : List Call) (code : ℕ) : Type 0 where
  pub before : List Call
  pub waiting : List Call
  pub status : Status
  pub word : ℕ
  pub tries : ℕ
  pub rest : List Call
  pub status_read : run K before (c.status_dir.read c.id) ≡ (ok status, waiting)
  pub answered : AnsweredAfter K (waitpid status.pid) is_interrupted (done word) waiting tries
  pub happened : calls ≡ calls_more waiting (waitpid status.pid) (suc tries) ++ rest
  pub reported : code ≡ wexitstatus word

module _ (retries : ℕ) (c : Container) where
  IsReported-stays :
      (K : Kernel) (g more : List Call) (code : ℕ)
      → IsReported c K g code
      → IsReported c K (g ++ more) code
  IsReported-stays K g more code r = record {
    before = r.before;
    waiting = r.waiting;
    status = r.status;
    word = r.word;
    tries = r.tries;
    status_read = r.status_read;
    answered = r.answered;
    reported = r.reported;
    rest = r.rest ++ more;
    happened = ap (λ (l : List Call). l ++ more) r.happened ∙ append_assoc _ r.rest more;
  }

  -- The part of `run` that waits, before a part that gives the exit code on.
  waits-Completes :
      (tail : ℕ → Program ℕ)
      → ((code : ℕ) → Returns (λ (a : ℕ). a ≡ code) (tail code))
      → Completes
          (IsReported c)
          (c.status_dir.read c.id >>= λ s. (wait_container_process retries s.pid >>= tail))
  waits-Completes tail ends = record {
    at = λ K h a e.
        let (s, waiting, read, after_read) = bind-returned K h (c.status_dir.read c.id) _ a e in
        let (code, g, wait, after_wait) =
          bind-returned K waiting (wait_container_process retries s.pid) tail a
            (ap (λ (r : Result ℕ × List Call). r.0) (sym after_read) ∙ e) in
        let kept : a ≡ code =
          (ends code).at K g a
            (ap (λ (r : Result ℕ × List Call). r.0) (sym (after_read ∙ after_wait)) ∙ e) in
        let (more, extended) = run_extends K g (tail code) in
        let (last_word, code_of, loop) =
          wait_container_process-IsAnswered K s.pid retries waiting g code wait in
        let (n, answers, calls) = loop in
        record {
          before = h;
          waiting = waiting;
          status = s;
          word = last_word;
          tries = n;
          rest = more;
          status_read = read;
          answered = answers;
          happened =
              ap (λ (r : Result ℕ × List Call). r.1) (after_read ∙ after_wait)
              ∙ extended
              ∙ ap (λ (l : List Call). l ++ more) calls;
          reported = kept ∙ code_of;
        };
  }

  run_container-Completes : Completes (IsReported c) (run_container retries c)
  unfolding run_container
  run_container-Completes =
      search
        (
          waits-Completes, Completes-scoped, IsReported-stays, Completes-bind, Returns-bind,
          Returns-ret,
        )
        depth 40

-- When running a container returns a code, the run has read a status of the container, has called
-- waitpid for the pid of that status right behind it, until it was not interrupted by EINTR or EAGAIN,
-- and the code is the exit code in the last answer.
pub run_container-IsReported :
    (retries : ℕ) (c : Container) (K : Kernel) (code : ℕ)
    → (run K [] (run_container retries c)).0 ≡ ok code
    → IsReported c K (run K [] (run_container retries c)).1 code
run_container-IsReported retries c K code e = (run_container-Completes retries c).at K [] code e
