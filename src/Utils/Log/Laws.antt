-- ===== src/Utils/Log/Laws.antt =====
-- The levels of the log and the names of process namespaces.
use linglong_box.Prelude.{
  ◌≡◌, refl, sym, ℕ, ◌≤◌, String, ◌<>◌, Bool, true, false, Option, none, some, arith,
}
use text.Mathlib.TextLemmas.{nil-append, cons-append}
use linglong_box.Result.{ok}
use linglong_box.Utils.Log.{
  clamp_level, level_from_env, behind_prefix, before_last, namespace_name, atoi,
}

clamp_level-le : (n : Bool × ℕ) (level : ℕ) → clamp_level n ≡ ok level → level ≤ 7
unfolding clamp_level
clamp_level-le (true, n) level e = ground arith
clamp_level-le (false, n) level e = ground arith

-- A level that is read from the environment, and that did not overflow, is at most LOG_DEBUG, if the
-- default is.
pub level_from_env-bounds :
    (default_level : ℕ) (env : Option String) (level : ℕ)
    → default_level ≤ 7
    → level_from_env default_level env ≡ ok level
    → level ≤ 7
unfolding level_from_env
level_from_env-bounds default_level none level le e =
    let same : default_level ≡ level = cc in omega arith
level_from_env-bounds default_level (some env) level le e = clamp_level-le (atoi env) level e

before_last-append : (n : String) → before_last (n <> "]") ≡ some n
unfolding before_last
before_last-append String.[] = refl
before_last-append (String.◌∷◌ c String.[]) = rw (cons-append c String.[] "]") refl
before_last-append (String.◌∷◌ c (String.◌∷◌ d s)) =
    let shorter : before_last (String.◌∷◌ d (s <> "]")) ≡ some (String.◌∷◌ d s) =
      rw (sym (cons-append d s "]")) (before_last-append (String.◌∷◌ d s)) in
    rw (cons-append c (String.◌∷◌ d s) "]", cons-append d s "]") (rw (before_last, shorter) refl)

-- The name of a process namespace that get_pid_namespace takes out of a link is what stands between
-- `pid:[` and the last bracket.
pub namespace_name-link : (n : String) → namespace_name ("pid:[" <> (n <> "]")) ≡ some n
unfolding namespace_name behind_prefix
namespace_name-link n =
    let opened : "pid:[" <> (n <> "]")
        ≡ String.◌∷◌ "p"
            (String.◌∷◌ "i" (String.◌∷◌ "d" (String.◌∷◌ ":" (String.◌∷◌ "[" (n <> "]"))))) =
      rw
        (
          cons-append "p" "id:[" (n <> "]"),
          cons-append "i" "d:[" (n <> "]"),
          cons-append "d" ":[" (n <> "]"),
          cons-append ":" "[" (n <> "]"),
          cons-append "[" "" (n <> "]"),
          nil-append (n <> "]"),
        )
        refl in
    rw opened (before_last-append n)
