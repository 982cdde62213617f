-- ===== src/Program/Resources.antt =====
-- The descriptors of socket pairs and the memory that a process holds, read off the calls it has made
-- and what the system answered to them, and rules for what a program makes of them.
use linglong_box.Prelude.{
  ◌≡◌, refl, sym, ap, ◌∙◌, ℕ, ◌==◌, Bool, true, false, if◌then◌else◌, ◌&&◌, List, [], ◌∷◌, ◌++◌,
  append_assoc, append-nil, arith,
}
use linglong_box.Kernel.{
  Call, Value, Reply, Kernel, Outcome, done, failed, socketpair, mmap, munmap, close,
}
use linglong_box.Program.{Program, ret, throw, call, run}
use linglong_box.Result.{Error, Result, ok, err}

pub data Resource : Type 0 where
  descriptor : ℕ → Resource
  memory : ℕ → ℕ → Resource

abbrev pub is_same : Resource → Resource → Bool
is_same (descriptor a) (descriptor b) = a == b
is_same (memory a m) (memory b n) = (a == b) && (m == n)
is_same _ _ = false

-- Without the first such resource.
abbrev pub given_back : Resource → List Resource → List Resource
given_back r [] = []
given_back r (x ∷ held) = let rest = given_back r held in if is_same x r then held else x ∷ rest

abbrev with_pair : Outcome (ℕ × ℕ) → List Resource → List Resource
with_pair (done fds) held = descriptor fds.0 ∷ descriptor fds.1 ∷ held
with_pair (failed e) held = held

abbrev with_memory : ℕ → Outcome ℕ → List Resource → List Resource
with_memory size (done low) held = memory low size ∷ held
with_memory size (failed e) held = held

-- What a call and its answer make of what is held. What close and munmap answer is not looked at.
abbrev pub change : (c : Call) → Reply c → List Resource → List Resource
change socketpair r held = with_pair r held
change (mmap size) r held = with_memory size r held
change (close n) r held = given_back (descriptor n) held
change (munmap low size) r held = given_back (memory low size) held
change _ _ held = held

-- What the calls make of what is held, where the earlier calls are those.
abbrev held_from : Kernel → List Call → List Call → List Resource → List Resource
held_from K before [] held = held
held_from K before (c ∷ calls) held =
    held_from K (before ++ c ∷ []) calls (change c (K before c) held)

-- What is held after the calls.
abbrev pub held : Kernel → List Call → List Resource
held K h = held_from K [] h []

held_from-call :
    (K : Kernel) (before h : List Call) (c : Call) (r : List Resource)
    → held_from K before (h ++ c ∷ []) r ≡ change c (K (before ++ h) c) (held_from K before h r)
held_from-call K before [] c r = ap (λ g. change c (K g c) r) (sym (append-nil before))
held_from-call K before (d ∷ h) c r =
    held_from-call K (before ++ d ∷ []) h c (change d (K before d) r)
    ∙ ap (λ g. change c (K g c) (held_from K (before ++ d ∷ []) h (change d (K before d) r)))
        (append_assoc before (d ∷ []) h)

is_same_refl : (r : Resource) → is_same r r ≡ true
is_same_refl (descriptor a) = ground arith
is_same_refl (memory a m) = ground arith

pub given_back-first : (r : Resource) (held : List Resource) → given_back r (r ∷ held) ≡ held
given_back-first r held = rw (is_same_refl r) refl

-- Where `pre` is held, the run ends with what `post` gives for its result.
pub record Makes {A : Type 0} (pre : List Resource) (m : Program A)
    (post : Result A → List Resource) : Type 0 where
  pub at : (K : Kernel) (h : List Call) → held K h ≡ pre → held K (run K h m).1 ≡ post (run K h m).0

branch :
    {A : Type 0} (pre : List Resource) {post : Result A → List Resource} (c : Call)
    (k : Reply c → Program A)
    → ((v : Value c) → Makes (change c (done v) pre) (k (done v)) post)
    → ((e : ℕ) → Makes (change c (failed e) pre) (k (failed e)) post)
    → (r : Reply c) → Makes (change c r pre) (k r) post
branch pre c k good bad (done v) = good v
branch pre c k good bad (failed e) = bad e

module _ {A : Type 0} {pre : List Resource} {post : Result A → List Resource} where
  pub Makes-ret : (a : A) → pre ≡ post (ok a) → Makes pre (ret a) post
  Makes-ret a e = record { at = λ K h p. p ∙ e }

  pub Makes-throw : (x : Error) → pre ≡ post (err x) → Makes pre (throw x) post
  Makes-throw x e = record { at = λ K h p. p ∙ e }

  pub Makes-call :
      (c : Call) (k : Reply c → Program A)
      → ((r : Reply c) → Makes (change c r pre) (k r) post)
      → Makes pre (call c k) post
  Makes-call c k rest = record {
    at = λ K h p.
        (rest (K h c)).at K (h ++ c ∷ []) (held_from-call K [] h c [] ∙ ap (change c (K h c)) p);
  }

  -- By what a call answers.
  pub Makes-branch :
      (c : Call) (k : Reply c → Program A)
      → ((v : Value c) → Makes (change c (done v) pre) (k (done v)) post)
      → ((e : ℕ) → Makes (change c (failed e) pre) (k (failed e)) post)
      → Makes pre (call c k) post
  Makes-branch c k good bad = Makes-call c k (branch pre c k good bad)

  pub Makes-as :
      {now : List Resource} {m : Program A} → now ≡ pre → Makes pre m post → Makes now m post
  Makes-as e p = record { at = λ K h q. p.at K h (q ∙ e) }

  pub Makes-choice :
      {B : Type 0} (f : Program B → Program A) (b : Bool) (m n : Program B)
      → Makes pre (f m) post
      → Makes pre (f n) post
      → Makes pre (f (if b then m else n)) post
  Makes-choice f true m n p q = p
  Makes-choice f false m n p q = q
