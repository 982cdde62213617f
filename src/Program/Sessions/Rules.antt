-- ===== src/Program/Sessions/Rules.antt =====
-- Programs that conform to a script: how they compose, and those that neither send nor await anything.
use linglong_box.Prelude.{Bool, true, false, if◌then◌else◌, List, [], ◌++◌}
use linglong_box.Kernel.{Fd}
use linglong_box.Program.{Program, ret, ◌>>=◌}
use linglong_box.Program.Avoids.{avoids_ret, avoids_throw, avoids_gone, avoids_call}
use linglong_box.Program.Sessions.{
  Side, Act, Conforms, returns, throws, leaves, sends, receives, awaits_end, calls, Silent,
}

module _ {me you : Side} {socket : Fd} where
  module _ {A B : Type 0} where
    pub Conforms-bind :
        {s t u : List Act} {m : Program A} {f : A → Program B}
        → Conforms me you socket s m t
        → ((a : A) → Conforms me you socket t (f a) u)
        → Conforms me you socket s (m >>= f) u
    Conforms-bind (returns a) q = q a
    Conforms-bind (throws e p) q = throws e p
    Conforms-bind leaves q = leaves
    Conforms-bind {f} (sends k p ps) q =
        sends (λ r. k r >>= f) (Conforms-bind p q) λ r ne. Conforms-bind (ps r ne) q
    Conforms-bind {f} (receives k p z ps) q =
        receives (λ r. k r >>= f) (Conforms-bind p q) (Conforms-bind z q)
          λ e. Conforms-bind (ps e) q
    Conforms-bind {f} (awaits_end k last z ps) q =
        awaits_end (λ r. k r >>= f) last (Conforms-bind z q) λ e. Conforms-bind (ps e) q
    Conforms-bind {f} (calls c k quiet ps) q =
        calls c (λ r. k r >>= f) quiet λ r. Conforms-bind (ps r) q

  pub Silent-Conforms :
      {A : Type 0} {s : List Act} {m : Program A} → Silent m → Conforms me you socket s m s
  Silent-Conforms (avoids_ret a) = returns a
  Silent-Conforms (avoids_throw e p) = throws e p
  Silent-Conforms avoids_gone = leaves
  Silent-Conforms (avoids_call c k quiet p) = calls c k quiet λ r. Silent-Conforms (p r)

  -- What comes after a silent program starts with the same script.
  pub Silent-then :
      {A B : Type 0} {s t : List Act} {m : Program A} {f : A → Program B}
      → Silent m
      → ((a : A) → Conforms me you socket s (f a) t)
      → Conforms me you socket s (m >>= f) t
  Silent-then p q = Conforms-bind (Silent-Conforms p) q

  -- A part that is left out on a test, with its acts.
  pub Conforms-unless :
      (x : Bool) (acts : List Act) {s : List Act} {m : Program Unit}
      → Conforms me you socket (acts ++ s) m s
      → Conforms me you socket ((if x then [] else acts) ++ s) (if x then ret tt else m) s
  Conforms-unless true acts p = returns tt
  Conforms-unless false acts p = p
