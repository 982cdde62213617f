-- ===== src/Container/Ordinary.antt =====
-- Programs that do nothing that the theorems about a container look at: they use no socket, run no hook,
-- change no root and execute no command.
pub mod Files
pub mod Mounts
pub mod Directory
pub mod Process
use linglong_box.Prelude.{◌≡◌, refl, Bool, true, false, not, ◌||◌, List, [], ◌∷◌, is_empty}
use linglong_box.Kernel.{Call}
use linglong_box.Program.{Program}
use linglong_box.Program.Avoids.{
  Avoids, avoids_ret, avoids_throw, avoids_gone, avoids_call, Avoids-fewer,
}
use linglong_box.Program.Sessions.{is_talk, Silent}
use linglong_box.Program.Traces.{Always, Always-ret, Always-throw, Always-gone}
use linglong_box.Program.Traces.Binds.{Always-quiet}
use linglong_box.Container.Order.{event_of}

abbrev pub is_special : Call → Bool
is_special c = is_talk c || not (is_empty (event_of c))

abbrev pub IsOrdinary : {A : Type 0} → Program A → Type 0
IsOrdinary m = Avoids is_special m

left-false : (a b : Bool) → (a || b) ≡ false → a ≡ false
left-false true b e = e
left-false false b e = refl

right-false : (a b : Bool) → (a || b) ≡ false → b ≡ false
right-false true b e = cc
right-false false b e = e

empty-nil : {A : Type 0} (xs : List A) → not (is_empty xs) ≡ false → xs ≡ []
empty-nil [] e = refl
empty-nil (x ∷ xs) e = cc

pub IsOrdinary-Silent : {A : Type 0} {m : Program A} → IsOrdinary m → Silent m
IsOrdinary-Silent p = Avoids-fewer (λ c. left-false (is_talk c) (not (is_empty (event_of c)))) p

pub IsOrdinary-Always : {A : Type 0} {m : Program A} → IsOrdinary m → Always event_of m []
IsOrdinary-Always (avoids_ret a) = Always-ret event_of a
IsOrdinary-Always (avoids_throw e p) = Always-throw event_of e
IsOrdinary-Always avoids_gone = Always-gone event_of
IsOrdinary-Always (avoids_call c k good p) =
    Always-quiet event_of
      (empty-nil (event_of c) (right-false (is_talk c) (not (is_empty (event_of c))) good))
      λ r. IsOrdinary-Always (p r)
