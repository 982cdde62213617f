-- ===== src/Program.antt =====
-- Code that makes calls, may throw, and goes on by what the calls answer: a tree with a branch for
-- each answer. `gone` is where the process has become another program, so that control does not
-- come back. It is run against a kernel from a history of calls.
pub mod Laws
pub mod Traces
pub mod Only
pub mod Returns
pub mod Completes
pub mod Retries
pub mod Avoids
pub mod Sessions
pub mod Resources
use linglong_box.Prelude.{
  ℕ, zero, suc, String, Bool, true, false, Option, none, some, List, [], ◌∷◌, ◌++◌, ◌==◌,
  if◌then◌else◌,
}
use linglong_box.Result.{Error, Result, ok, err, system_error, process_replaced}
use linglong_box.Kernel.{Call, Pointers, execute, Value, Outcome, done, failed, Reply, Kernel}

pub data Program (A : Type 0) : Type 0 where
  ret : A → Program A
  throw : Error → Program A
  call : (c : Call) → (Reply c → Program A) → Program A
  gone : Program A

module _ {A B : Type 0} where
  infixl 5 ◌>>=◌
  abbrev pub ◌>>=◌ : Program A → (A → Program B) → Program B
  ret a >>= f = f a
  throw e >>= f = throw e
  call c k >>= f = call c (λ r. k r >>= f)
  gone >>= f = gone

infixl 5 ◌>>◌
abbrev pub ◌>>◌ : {B : Type 0} → Program Unit → Program B → Program B
m >> n = m >>= λ _. n

-- `try { m } catch (...)`
abbrev pub catch : {A : Type 0} → Program A → (Error → Program A) → Program A
catch (ret a) h = ret a
catch (throw e) h = h e
catch (call c k) h = call c (λ r. catch (k r) h)
catch gone h = gone

-- What is destroyed when an exception leaves the scope of an object.
abbrev pub on_throw : {A : Type 0} → Program Unit → Program A → Program A
on_throw destructor m = catch m λ e. destructor >> throw e

-- The scope of an object with a destructor, which is left by a return or by an exception.
abbrev pub scoped : {A : Type 0} → Program Unit → Program A → Program A
scoped destructor m = on_throw destructor m >>= λ a. destructor >> ret a

abbrev pub value_or : {A : Type 0} → String → Outcome A → Program A
value_or what (done v) = ret v
value_or what (failed e) = throw (system_error e what)

-- A call whose failure is thrown as a `std::system_error`.
abbrev pub sys : (c : Call) → String → Program (Value c)
sys c what = call c (value_or what)

abbrev pub replaced_or : {A : Type 0} → String → Outcome Unit → Program A
replaced_or what (done _) = gone
replaced_or what (failed e) = throw (system_error e what)

-- `execvp` and its like, which return only by failing.
abbrev pub become : {A : Type 0} → Pointers → Option Pointers → String → Program A
become args env what = call (execute args env) (replaced_or what)

-- A call whose outcome the caller inspects.
abbrev pub attempt : (c : Call) → Program (Reply c)
attempt c = call c ret

abbrev pub of_result : {A : Type 0} → Result A → Program A
of_result (ok a) = ret a
of_result (err e) = throw e

-- `catch (const std::system_error &e) { if (e.code() != errno) throw; … }`
abbrev pub on_errno : {A : Type 0} → ℕ → Program A → Error → Program A
on_errno code h (system_error e what) = if e == code then h else throw (system_error e what)
on_errno code h e = throw e

abbrev pub for_each : {A : Type 0} → (A → Program Unit) → List A → Program Unit
for_each f [] = ret tt
for_each f (x ∷ xs) = do f x; for_each f xs

-- What a run gives, and the calls made so far, the latest last.
abbrev pub run : {A : Type 0} → Kernel → List Call → Program A → Result A × List Call
run K h (ret a) = (ok a, h)
run K h (throw e) = (err e, h)
run K h (call c k) = run K (h ++ c ∷ []) (k (K h c))
run K h gone = (err process_replaced, h)
