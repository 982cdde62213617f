-- ===== src/Utils/Inspect.antt =====
-- src/linyaps_box/utils/inspect.cpp: what the log shows of open descriptors.
use Prim.Native.Char.{Char, code}
use linglong_box.Prelude.{
  ◌≡◌, refl, ℕ, ◌+◌, ◌-◌, ◌*◌, ◌^◌, String, ◌<>◌, Bool, true, false, List, [], ◌∷◌, bit_and, ◌&&◌,
  ◌||◌, str_eq, ltb, leb, ◌==◌, if◌then◌else◌,
}
use linglong_box.Prelude.Bits.{has_any}
use linglong_box.Prelude.Decimal.{to_string}
use linglong_box.Kernel.{read_link, read_file, list_directory, done, failed}
use linglong_box.Program.{Program, ret, call, sys, ◌>>=◌}
use linglong_box.Linux.Open
use linglong_box.Utils.Paths.{quoted, filename}

-- The flags that are tested by `&`, with the text for each, in the order of the tests; O_NDELAY comes
-- with the text of O_SYNC.
abbrev pub flag_texts : List (ℕ × String)
flag_texts =
    (Open.wronly, " O_WRONLY")
    ∷ (Open.rdwr, " O_RDWR")
    ∷ (Open.creat, " O_CREAT")
    ∷ (Open.excl, " O_EXCL")
    ∷ (Open.noctty, " O_NOCTTY")
    ∷ (Open.trunc, " O_TRUNC")
    ∷ (Open.append, " O_APPEND")
    ∷ (Open.nonblock, " O_NONBLOCK")
    ∷ (Open.nonblock, " O_SYNC")
    ∷ (Open.sync, " O_SYNC")
    ∷ (Open.async, " O_ASYNC")
    ∷ (Open.largefile, " O_LARGEFILE")
    ∷ (Open.directory, " O_DIRECTORY")
    ∷ (Open.nofollow, " O_NOFOLLOW")
    ∷ (Open.cloexec, " O_CLOEXEC")
    ∷ (Open.direct, " O_DIRECT")
    ∷ (Open.noatime, " O_NOATIME")
    ∷ (Open.path, " O_PATH")
    ∷ (Open.dsync, " O_DSYNC")
    ∷ []

unfoldable pub texts_of : List (ℕ × String) → ℕ → String
texts_of [] flags = ""
texts_of (entry ∷ entries) flags =
    let rest = texts_of entries flags in if has_any flags entry.0 then entry.1 <> rest else rest

unfoldable pub inspect_fcntl_or_open_flags : ℕ → String
inspect_fcntl_or_open_flags flags =
    "["
    <> ((if has_any flags Open.wronly then "" else " O_RDONLY")
        <> (texts_of flag_texts flags
            <> ((if bit_and flags Open.tmpfile == Open.tmpfile then " O_TMPFILE" else "") <> " ]")))

abbrev is_space : Char → Bool
is_space c = code c == b' ' || (leb 9 (code c) && leb (code c) 13)

abbrev is_octal : Char → Bool
is_octal c = leb b'0' (code c) && leb (code c) b'7'

-- Where the loop over the stream stands: before a key, in one, before or in the value of a key, or
-- before or in the octal number behind `flags:`.
pub data Reading : Type 0 where
  before_key before_value in_value before_number : Reading
  in_key : String → Reading
  in_number : ℕ → Reading

abbrev after_key : String → Reading
after_key key = if str_eq key "flags:" then before_number else before_value

-- What a number that is too large for `int` is stored as; the stream fails then.
abbrev int_max : ℕ
int_max = 2 ^ 31 - 1

-- What the loop prints of the rest of the stream; `unset` is what `int value` holds before it is read.
-- A sign in front of a number, which the system does not write, is not read.
unfoldable pub fdinfo_text : ℕ → Reading → String → String
fdinfo_text unset (in_key key) String.[] =
    " " <> (key <> (" " <> (if str_eq key "flags:" then inspect_fcntl_or_open_flags unset else "")))
fdinfo_text unset before_number String.[] = inspect_fcntl_or_open_flags unset
fdinfo_text unset (in_number n) String.[] =
    inspect_fcntl_or_open_flags (if ltb int_max n then int_max else n)
fdinfo_text unset _ String.[] = ""
fdinfo_text unset before_key (String.◌∷◌ c s) =
    let skipped = fdinfo_text unset before_key s in
    let started = fdinfo_text unset (in_key (String.◌∷◌ c "")) s in
    if is_space c then skipped else started
fdinfo_text unset (in_key key) (String.◌∷◌ c s) =
    let ended = fdinfo_text unset (after_key key) s in
    let longer = fdinfo_text unset (in_key (key <> String.◌∷◌ c "")) s in
    if is_space c then " " <> (key <> (" " <> ended)) else longer
fdinfo_text unset before_value (String.◌∷◌ c s) =
    let skipped = fdinfo_text unset before_value s in
    let started = fdinfo_text unset in_value s in
    if is_space c then skipped else String.◌∷◌ c started
fdinfo_text unset in_value (String.◌∷◌ c s) =
    let ended = fdinfo_text unset before_key s in
    let longer = fdinfo_text unset in_value s in if is_space c then ended else String.◌∷◌ c longer
fdinfo_text unset before_number (String.◌∷◌ c s) =
    let skipped = fdinfo_text unset before_number s in
    let started = fdinfo_text unset (in_number (code c - b'0')) s in
    if is_space c then skipped else if is_octal c then started else inspect_fcntl_or_open_flags 0
fdinfo_text unset (in_number n) (String.◌∷◌ c s) =
    let longer = fdinfo_text unset (in_number (n * 8 + (code c - b'0'))) s in
    let spaced = fdinfo_text unset before_key s in
    let glued = fdinfo_text unset (in_key (String.◌∷◌ c "")) s in
    if is_octal c
    then longer
    else if ltb int_max n
    then inspect_fcntl_or_open_flags int_max
    else inspect_fcntl_or_open_flags n <> (if is_space c then spaced else glued)

-- `stem` of a name without a dot, as the names under /proc/self/fdinfo are. A file that cannot be opened
-- reads as an empty stream, where the assertion that it is open is not compiled in.
unfoldable pub inspect_fdinfo : ℕ → String → Program String
inspect_fdinfo unset fdinfo_path = do
  target ← sys (read_link ("/proc/self/fd/" <> filename fdinfo_path)) "read_symlink"
  r ← call (read_file fdinfo_path) ret
  let text : String = elim r [ done t ↦ t | failed _ ↦ "" ]
  ret (quoted target <> fdinfo_text unset before_key text)

unfoldable pub inspect_fd : ℕ → ℕ → Program String
inspect_fd unset fd = inspect_fdinfo unset ("/proc/self/fdinfo/" <> to_string fd)

abbrev is_standard : String → Bool
is_standard path =
    str_eq path "/proc/self/fdinfo/0"
    || (str_eq path "/proc/self/fdinfo/1" || str_eq path "/proc/self/fdinfo/2")

unfoldable pub inspect_entries : ℕ → Bool → List (String × Bool) → Program String
inspect_entries unset first_line [] = ret ""
inspect_entries unset first_line (entry ∷ entries) =
    let skipped = inspect_entries unset first_line entries in
    let rest = inspect_entries unset false entries in
    if is_standard entry.0 then skipped else do
      text ← inspect_fdinfo unset entry.0
      more ← rest
      ret ((if first_line then "" else "\n") <> (quoted entry.0 <> (" " <> (text <> more))))

unfoldable pub inspect_fds : ℕ → Program String
inspect_fds unset = do
  entries ← sys (list_directory "/proc/self/fdinfo") "directory_iterator"
  inspect_entries unset true entries

inspect_test :
    (inspect_fcntl_or_open_flags 0x80241 ≡ "[ O_WRONLY O_CREAT O_TRUNC O_CLOEXEC ]")
    × (fdinfo_text 0 before_key "pos:\t0\nflags:\t0100002\nmnt_id:\t5\n"
        ≡ " pos: 0 flags: [ O_RDONLY O_RDWR ] mnt_id: 5")
unfolding inspect_fcntl_or_open_flags texts_of fdinfo_text
inspect_test = (refl, refl)
