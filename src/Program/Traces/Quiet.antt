-- ===== src/Program/Traces/Quiet.antt =====
-- Programs that show nothing, one rule for each way to build a program.
use linglong_box.Prelude.{
  ℕ, ◌≡◌, ◌==◌, String, Option, none, some, Bool, true, false, if◌then◌else◌, List, [],
}
use linglong_box.Result.{Error, Result}
use linglong_box.Kernel.{Call, Reply, Outcome, done, failed}
use linglong_box.Program.{
  Program, ret, throw, call, ◌>>=◌, catch, for_each, value_or, of_result, on_errno,
}
use linglong_box.Program.Traces.{Always, Always-ret, Always-throw}
use linglong_box.Program.Traces.Binds.{
  Always-bind, Always-catch, Always-quiet, Always-value_or, Always-of_result, quiet-for_each,
}
use linglong_box.Result.{
  invalid_argument, out_of_range, runtime_error, logic_error, system_error, file_descriptor_closed,
  unexpected_sync_message, json_error, undefined, process_replaced,
}

module _ {E : Type 0} {see : Call → List E} where
  module _ {A : Type 0} where
    pub quiet-ret : (a : A) → Always see (ret a) []
    quiet-ret a = Always-ret see a

    pub quiet-throw : (e : Error) → Always see {A = A} (throw e) []
    quiet-throw e = Always-throw see e

    pub quiet-value_or : (what : String) (r : Outcome A) → Always see (value_or what r) []
    quiet-value_or what r = Always-value_or see what r

    pub quiet-of_result : (r : Result A) → Always see (of_result r) []
    quiet-of_result r = Always-of_result see r

    pub quiet-call :
        (c : Call) (k : Reply c → Program A)
        → see c ≡ []
        → ((r : Reply c) → Always see (k r) [])
        → Always see (call c k) []
    quiet-call c k e s = Always-quiet see e s

    pub quiet-if :
        (b : Bool) (m n : Program A)
        → Always see m []
        → Always see n []
        → Always see (if b then m else n) []
    quiet-if true m n p q = p
    quiet-if false m n p q = q

    pub quiet-catch :
        (m : Program A) (f : Error → Program A)
        → Always see m []
        → ((e : Error) → Always see (f e) [])
        → Always see (catch m f) []
    quiet-catch m f p q = Always-catch see p q

    pub quiet-on_errno :
        (n : ℕ) (h : Program A) (e : Error) → Always see h [] → Always see (on_errno n h e) []
    quiet-on_errno n h (system_error code what) p =
        quiet-if (code == n) h (throw (system_error code what)) p
          (quiet-throw (system_error code what))
    quiet-on_errno n h (invalid_argument w) p = quiet-throw (invalid_argument w)
    quiet-on_errno n h out_of_range p = quiet-throw out_of_range
    quiet-on_errno n h (runtime_error w) p = quiet-throw (runtime_error w)
    quiet-on_errno n h (logic_error w) p = quiet-throw (logic_error w)
    quiet-on_errno n h file_descriptor_closed p = quiet-throw file_descriptor_closed
    quiet-on_errno n h (unexpected_sync_message a b) p = quiet-throw (unexpected_sync_message a b)
    quiet-on_errno n h json_error p = quiet-throw json_error
    quiet-on_errno n h (undefined w) p = quiet-throw (undefined w)
    quiet-on_errno n h process_replaced p = quiet-throw process_replaced

  pub quiet-outcome :
      {A B : Type 0} (k : Outcome A → Program B)
      → ((a : A) → Always see (k (done a)) [])
      → ((n : ℕ) → Always see (k (failed n)) [])
      → (r : Outcome A) → Always see (k r) []
  quiet-outcome k p q (done a) = p a
  quiet-outcome k p q (failed n) = q n

  pub quiet-option :
      {A B : Type 0} (k : Option A → Program B)
      → Always see (k none) []
      → ((a : A) → Always see (k (some a)) [])
      → (o : Option A) → Always see (k o) []
  quiet-option k p q none = p
  quiet-option k p q (some a) = q a

  pub quiet-bind :
      {A B : Type 0} (m : Program A) (f : A → Program B)
      → Always see m []
      → ((a : A) → Always see (f a) [])
      → Always see (m >>= f) []
  quiet-bind m f p q = Always-bind see p q

  pub quiet-each :
      {A : Type 0} (f : A → Program Unit) (xs : List A)
      → ((a : A) → Always see (f a) [])
      → Always see (for_each f xs) []
  quiet-each f xs p = quiet-for_each see p xs

pub ruleset quiet_rules = (
  quiet-ret, quiet-throw, quiet-value_or, quiet-of_result, quiet-call, quiet-if, quiet-catch,
  quiet-on_errno, quiet-bind, quiet-each,
)
