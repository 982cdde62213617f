-- ===== src/Program/Avoids.antt =====
-- Programs that make no call of a kind and throw no exception about a message, one rule for each way to
-- build a program.
use linglong_box.Prelude.{
  refl, ◌≡◌, ◌==◌, ℕ, String, Bool, true, false, if◌then◌else◌, Option, none, some, List, [], ◌∷◌,
}
use linglong_box.Result.{
  Error, invalid_argument, out_of_range, runtime_error, logic_error, system_error,
  file_descriptor_closed, unexpected_sync_message, json_error, undefined, process_replaced,
}
use linglong_box.Kernel.{Call, Reply, Outcome, done, failed}
use linglong_box.Program.{
  Program, ret, throw, call, gone, ◌>>=◌, catch, for_each, value_or, replaced_or, on_errno,
}

-- The exception that a process throws when it has read another byte than the one it expects.
abbrev pub is_surprise : Error → Bool
is_surprise (unexpected_sync_message _ _) = true
is_surprise _ = false

pub data Avoids (bad : Call → Bool) {A : Type 0} : Program A → Type 0 where
  avoids_ret : (a : A) → Avoids bad (ret a)
  avoids_throw : (e : Error) → is_surprise e ≡ false → Avoids bad (throw e)
  avoids_gone : Avoids bad gone
  avoids_call :
      (c : Call) (k : Reply c → Program A)
      → bad c ≡ false
      → ((r : Reply c) → Avoids bad (k r))
      → Avoids bad (call c k)

-- What avoids more calls avoids fewer.
pub Avoids-fewer :
    {A : Type 0} {bad worse : Call → Bool} {m : Program A}
    → ((c : Call) → bad c ≡ false → worse c ≡ false)
    → Avoids bad m
    → Avoids worse m
Avoids-fewer less (avoids_ret a) = avoids_ret a
Avoids-fewer less (avoids_throw e p) = avoids_throw e p
Avoids-fewer less avoids_gone = avoids_gone
Avoids-fewer less (avoids_call c k good p) =
    avoids_call c k (less c good) λ r. Avoids-fewer less (p r)

module _ {bad : Call → Bool} where
  module _ {A : Type 0} where
    pub Avoids-value_or : (what : String) (r : Outcome A) → Avoids bad (value_or what r)
    Avoids-value_or what (done a) = avoids_ret a
    Avoids-value_or what (failed n) = avoids_throw (system_error n what) refl

    pub Avoids-replaced_or :
        (what : String) (r : Outcome Unit) → Avoids bad {A = A} (replaced_or what r)
    Avoids-replaced_or what (done a) = avoids_gone
    Avoids-replaced_or what (failed n) = avoids_throw (system_error n what) refl

    pub Avoids-if :
        (b : Bool) (m n : Program A) → Avoids bad m → Avoids bad n → Avoids bad (if b then m else n)
    Avoids-if true m n p q = p
    Avoids-if false m n p q = q

    pub Avoids-catch :
        (m : Program A) (f : Error → Program A)
        → Avoids bad m
        → ((e : Error) → is_surprise e ≡ false → Avoids bad (f e))
        → Avoids bad (catch m f)
    Avoids-catch _ f (avoids_ret a) q = avoids_ret a
    Avoids-catch _ f (avoids_throw e p) q = q e p
    Avoids-catch _ f avoids_gone q = avoids_gone
    Avoids-catch _ f (avoids_call c k quiet p) q =
        avoids_call c (λ r. catch (k r) f) quiet λ r. Avoids-catch (k r) f (p r) q

    pub Avoids-on_errno :
        (n : ℕ) (h : Program A) (e : Error)
        → Avoids bad h
        → is_surprise e ≡ false
        → Avoids bad (on_errno n h e)
    Avoids-on_errno n h (system_error code what) p s =
        Avoids-if (code == n) h (throw (system_error code what)) p
          (avoids_throw (system_error code what) s)
    Avoids-on_errno n h (invalid_argument w) p s = avoids_throw (invalid_argument w) s
    Avoids-on_errno n h out_of_range p s = avoids_throw out_of_range s
    Avoids-on_errno n h (runtime_error w) p s = avoids_throw (runtime_error w) s
    Avoids-on_errno n h (logic_error w) p s = avoids_throw (logic_error w) s
    Avoids-on_errno n h file_descriptor_closed p s = avoids_throw file_descriptor_closed s
    Avoids-on_errno n h (unexpected_sync_message a b) p s =
        avoids_throw (unexpected_sync_message a b) s
    Avoids-on_errno n h json_error p s = avoids_throw json_error s
    Avoids-on_errno n h (undefined w) p s = avoids_throw (undefined w) s
    Avoids-on_errno n h process_replaced p s = avoids_throw process_replaced s

    pub Avoids-outcome :
        {B : Type 0} (k : Outcome B → Program A)
        → ((b : B) → Avoids bad (k (done b)))
        → ((n : ℕ) → Avoids bad (k (failed n)))
        → (r : Outcome B) → Avoids bad (k r)
    Avoids-outcome k p q (done b) = p b
    Avoids-outcome k p q (failed n) = q n

    pub Avoids-bind :
        {B : Type 0} (m : Program B) (f : B → Program A)
        → Avoids bad m
        → ((b : B) → Avoids bad (f b))
        → Avoids bad (m >>= f)
    Avoids-bind _ f (avoids_ret a) q = q a
    Avoids-bind _ f (avoids_throw e p) q = avoids_throw e p
    Avoids-bind _ f avoids_gone q = avoids_gone
    Avoids-bind _ f (avoids_call c k quiet p) q =
        avoids_call c (λ r. k r >>= f) quiet λ r. Avoids-bind (k r) f (p r) q

  pub Avoids-each :
      {A : Type 0} (f : A → Program Unit) (xs : List A)
      → ((a : A) → Avoids bad (f a))
      → Avoids bad (for_each f xs)
  Avoids-each f [] p = avoids_ret tt
  Avoids-each f (x ∷ xs) p = Avoids-bind (f x) (λ _. for_each f xs) (p x) λ _. Avoids-each f xs p

pub ruleset avoids_rules = (
  refl, avoids_ret, avoids_throw, avoids_gone, avoids_call, Avoids-value_or, Avoids-replaced_or,
  Avoids-if, Avoids-catch, Avoids-on_errno, Avoids-bind, Avoids-each,
)
