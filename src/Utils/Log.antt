-- ===== src/Utils/Log.antt =====
-- src/linyaps_box/utils/log.cpp and log.h: the level of the log, what a message prints, and the name of
-- a process namespace.
pub mod Laws
mod Tests
use Prim.Native.Char.{Char, code}
use linglong_box.Prelude.{
  ◌≡◌, refl, ℕ, zero, suc, ◌+◌, ◌-◌, ◌*◌, ◌^◌, String, ◌<>◌, Bool, true, false, Option, none, some,
  List, [], ◌∷◌, not, ◌&&◌, ◌||◌, ltb, leb, ◌==◌, if◌then◌else◌,
}
use linglong_box.Prelude.Decimal.{to_string}
use linglong_box.Kernel.{get_env, read_link, gettimeofday, syslog, print, Outcome, done, failed}
use linglong_box.Program.{Program, ret, throw, call, sys, of_result, ◌>>=◌, ◌>>◌}
use linglong_box.Result.{Result, ok, err, undefined}

-- <syslog.h>
abbrev pub log_alert : ℕ
log_alert = 1

abbrev log_err : ℕ
log_err = 3

abbrev log_warning : ℕ
log_warning = 4

abbrev log_info : ℕ
log_info = 6

abbrev pub log_debug : ℕ
log_debug = 7

abbrev is_space : Char → Bool
is_space c = code c == b' ' || (leb 9 (code c) && leb (code c) 13)

abbrev is_digit : Char → Bool
is_digit c = leb b'0' (code c) && leb (code c) b'9'

-- The digits at the front, read behind a number.
unfoldable pub digits_from : ℕ → String → ℕ
digits_from n String.[] = n
digits_from n (String.◌∷◌ c s) =
    let more = digits_from (n * 10 + (code c - b'0')) s in if is_digit c then more else n

-- `atoi`: the sign, which is true for a minus, and the number behind it.
unfoldable pub atoi_sign : String → Bool × ℕ
atoi_sign String.[] = (false, 0)
atoi_sign (String.◌∷◌ c s) =
    if code c == b'-'
    then (true, digits_from 0 s)
    else if code c == b'+'
    then (false, digits_from 0 s)
    else (false, digits_from 0 (String.◌∷◌ c s))

unfoldable pub atoi : String → Bool × ℕ
atoi String.[] = (false, 0)
atoi (String.◌∷◌ c s) =
    let skipped = atoi s in if is_space c then skipped else atoi_sign (String.◌∷◌ c s)

-- A number that `int` does not hold is undefined in `atoi`.
unfoldable pub clamp_level : Bool × ℕ → Result ℕ
clamp_level (true, n) =
    if n == 0 then ok 0 else if ltb (2 ^ 31) n then err (undefined "atoi") else ok log_alert
clamp_level (false, n) =
    if ltb (2 ^ 31 - 1) n
    then err (undefined "atoi")
    else if ltb log_debug n
    then ok log_debug
    else ok n

-- `get_current_log_level_from_env`; `default_level` is the macro LINYAPS_BOX_LOG_DEFAULT_LEVEL.
unfoldable pub level_from_env : ℕ → Option String → Result ℕ
level_from_env default_level none = ok default_level
level_from_env default_level (some env) = clamp_level (atoi env)

-- The first call of `get_current_log_level`; later calls give the same.
unfoldable pub get_current_log_level : ℕ → Program ℕ
get_current_log_level default_level = do
  env ← sys (get_env "LINYAPS_BOX_LOG_LEVEL") "getenv"
  of_result (level_from_env default_level env)

-- `result.rfind("pid:[", 0) == 0`, and what is behind.
unfoldable pub behind_prefix : String → Option String
behind_prefix (String.◌∷◌ p (String.◌∷◌ i (String.◌∷◌ d (String.◌∷◌ colon (String.◌∷◌ open_ s))))) =
    if code p == b'p'
      && (code i == b'i' && (code d == b'd' && (code colon == b':' && code open_ == b'[')))
    then some s
    else none
behind_prefix _ = none

-- `result.back() == ']'`, and what is before: what `substr` gives, without its arithmetic on positions.
unfoldable pub before_last : String → Option String
before_last String.[] = none
before_last (String.◌∷◌ c String.[]) = if code c == b']' then some "" else none
before_last (String.◌∷◌ c s) = elim (before_last s) [
  | none ↦ none
  | some rest ↦ some (String.◌∷◌ c rest)
]

-- `none` is a call of `std::abort`. The prefix does not end in the bracket that is asked for at the end.
unfoldable pub namespace_name : String → Option String
namespace_name link = elim (behind_prefix link) [ none ↦ none | some s ↦ before_last s ]

-- `get_pid_namespace`, where 0 is for the calling process. A link is taken to fit the buffer.
unfoldable pub get_pid_namespace : ℕ → Program (Option String)
get_pid_namespace pid =
    call (read_link ("/proc/" <> ((if pid == 0 then "self" else to_string pid) <> "/ns/pid")))
      λ r. elim r [ done link ↦ ret (namespace_name link) | failed e ↦ ret (some "not available") ]

abbrev color : ℕ → String
color level =
    if leb level log_err
    then "\u{1b}[31m\u{1b}[1m"
    else if leb level log_warning
    then "\u{1b}[33m\u{1b}[1m"
    else if leb level log_info
    then "\u{1b}[34m"
    else "\u{1b}[0m"

-- What the process reads once for its log.
pub record LogSettings : Type 0 where
  pub current_level : ℕ
  pub stderr_is_a_tty : Bool
  pub force_log_to_stderr : Bool

-- Behind the first test of the destructor.
unfoldable pub write_log : LogSettings → ℕ → String → Program Unit
write_log settings level str = call (syslog level str) λ _.
    if not settings.stderr_is_a_tty && not settings.force_log_to_stderr then ret tt else do
      now ← sys gettimeofday "gettimeofday"
      ns ← get_pid_namespace 0
      elim ns [
        | none ↦ throw (undefined "abort")
        | some name ↦
            call
              (print (
                color level
                <> ("TIME="
                    <> (to_string now.0
                        <> ("."
                            <> (to_string now.1
                                <> (" PIDNS=" <> (name <> (" " <> (str <> "\u{1b}[0m\n\n"))))))))))
              λ _. ret tt
      ]

-- `~Logger`
unfoldable pub log_message : LogSettings → ℕ → String → Program Unit
log_message settings level str =
    if ltb settings.current_level level then ret tt else write_log settings level str

-- LINYAPS_BOX_LOG_SOURCE_LOCATION, and the ends of lines that LINYAPS_BOX_LOG adds.
pub record Location : Type 0 where
  pub file : String
  pub line : ℕ
  pub function : String

unfoldable pub located : Location → String → String
located l str =
    "SOURCE="
    <> (l.file <> (":" <> (to_string l.line <> ("\n" <> (l.function <> ("\n\n" <> str))))))

-- LINYAPS_BOX_LOG
unfoldable pub log_if_current : LogSettings → ℕ → Location → String → Program Unit
log_if_current settings level l str =
    if leb level settings.current_level then log_message settings level (located l str) else ret tt

-- LINYAPS_BOX_EMERG to LINYAPS_BOX_DEBUG; `active_level` is the macro LINYAPS_BOX_ACTIVE_LOG_LEVEL.
unfoldable pub log_at : ℕ → LogSettings → ℕ → Location → String → Program Unit
log_at active_level settings level l str =
    if leb level active_level then log_if_current settings level l str else ret tt

log_test :
    (level_from_env 7 (some " 4x") ≡ ok 4)
    × (level_from_env 7 (some "-3") ≡ ok 1)
    × (level_from_env 7 (some "12") ≡ ok 7)
    × (namespace_name "pid:[4026531836]" ≡ some "4026531836")
unfolding level_from_env clamp_level atoi atoi_sign digits_from namespace_name behind_prefix
    before_last
log_test = (refl, refl, refl, refl)
