-- ===== src/Program/Only.antt =====
-- Programs all of whose calls satisfy a predicate, one rule for each way to build a program.
use linglong_box.Prelude.{
  ℕ, ◌==◌, String, Bool, true, false, if◌then◌else◌, List, [], ◌∷◌, ◌++◌, All, All-append,
}
use linglong_box.Result.{
  Error, Result, ok, err, invalid_argument, out_of_range, runtime_error, logic_error, system_error,
  file_descriptor_closed, unexpected_sync_message, json_error, undefined, process_replaced,
}
use linglong_box.Kernel.{Call, Reply, Kernel, Outcome, done, failed}
use linglong_box.Program.{
  Program, ret, throw, call, gone, ◌>>=◌, catch, for_each, value_or, on_errno, run,
}
use linglong_box.Program.Laws.{continue, run-bind}

module _ (P : Call → Type 0) where
  pub record Only {A : Type 0} (m : Program A) : Type 0 where
    pub at : (K : Kernel) (h : List Call) → All P h → All P (run K h m).1

module _ {P : Call → Type 0} where
  module _ {A : Type 0} where
    pub Only-ret : (a : A) → Only P (ret a)
    Only-ret a = record { at = λ K h p. p }

    pub Only-throw : (e : Error) → Only P {A = A} (throw e)
    Only-throw e = record { at = λ K h p. p }

    pub Only-call :
        (c : Call) (k : Reply c → Program A)
        → P c
        → ((r : Reply c) → Only P (k r))
        → Only P (call c k)
    Only-call c k good rest = record {
      at = λ K h p. (rest (K h c)).at K (h ++ c ∷ []) (All-append P h (c ∷ []) p (good, tt));
    }

    pub Only-value_or : (what : String) (r : Outcome A) → Only P (value_or what r)
    Only-value_or what (done a) = Only-ret a
    Only-value_or what (failed n) = Only-throw (system_error n what)

    pub Only-if : (b : Bool) (m n : Program A) → Only P m → Only P n → Only P (if b then m else n)
    Only-if true m n p q = p
    Only-if false m n p q = q

    All-catch :
        (K : Kernel) (h : List Call) (m : Program A) (f : Error → Program A)
        → ((e : Error) → Only P (f e))
        → All P (run K h m).1
        → All P (run K h (catch m f)).1
    All-catch K h (ret a) f good p = p
    All-catch K h (throw e) f good p = (good e).at K h p
    All-catch K h gone f good p = p
    All-catch K h (call c k) f good p = All-catch K (h ++ c ∷ []) (k (K h c)) f good p

    pub Only-catch :
        (m : Program A) (f : Error → Program A)
        → Only P m
        → ((e : Error) → Only P (f e))
        → Only P (catch m f)
    Only-catch m f p good = record { at = λ K h q. All-catch K h m f good (p.at K h q) }

    pub Only-on_errno : (n : ℕ) (h : Program A) (e : Error) → Only P h → Only P (on_errno n h e)
    Only-on_errno n h (system_error code what) p =
        Only-if (code == n) h (throw (system_error code what)) p
          (Only-throw (system_error code what))
    Only-on_errno n h (invalid_argument w) p = Only-throw (invalid_argument w)
    Only-on_errno n h out_of_range p = Only-throw out_of_range
    Only-on_errno n h (runtime_error w) p = Only-throw (runtime_error w)
    Only-on_errno n h (logic_error w) p = Only-throw (logic_error w)
    Only-on_errno n h file_descriptor_closed p = Only-throw file_descriptor_closed
    Only-on_errno n h (unexpected_sync_message a b) p = Only-throw (unexpected_sync_message a b)
    Only-on_errno n h json_error p = Only-throw json_error
    Only-on_errno n h (undefined w) p = Only-throw (undefined w)
    Only-on_errno n h process_replaced p = Only-throw process_replaced

  module _ {A B : Type 0} where
    All-continue :
        (K : Kernel) (r : Result A × List Call) (f : A → Program B)
        → All P r.1
        → ((a : A) → Only P (f a))
        → All P (continue K f r).1
    All-continue K (ok a, h) f p rest = (rest a).at K h p
    All-continue K (err e, h) f p rest = p

    pub Only-bind :
        (m : Program A) (f : A → Program B) → Only P m → ((a : A) → Only P (f a)) → Only P (m >>= f)
    Only-bind m f p rest = record {
      at = λ K h q. rw (run-bind K h m f) (All-continue K (run K h m) f (p.at K h q) rest);
    }

  pub Only-each :
      {A : Type 0} (f : A → Program Unit) (xs : List A)
      → ((a : A) → Only P (f a))
      → Only P (for_each f xs)
  Only-each f [] p = Only-ret tt
  Only-each f (x ∷ xs) p = Only-bind (f x) (λ _. for_each f xs) (p x) (λ _. Only-each f xs p)

pub ruleset only_rules = (
  Only-ret, Only-throw, Only-value_or, Only-call, Only-if, Only-catch, Only-on_errno, Only-bind,
  Only-each,
)
