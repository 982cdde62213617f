-- ===== src/Config/MountOptions.antt =====
-- src/linyaps_box/config.cpp: parse_mount_options and its three tables.
pub mod Laws
mod Tests
use linglong_box.Prelude.{
  ℕ, ◌+◌, String, ◌<>◌, Option, none, some, List, [], ◌∷◌, str_eq, bit_and, bit_or, if◌then◌else◌,
}
use linglong_box.Prelude.Bits.{complement}
use linglong_box.Linux.Ms

abbrev pub Table : Type 0
Table = List (String × ℕ)

abbrev pub propagation_flags_map : Table
propagation_flags_map =
    ("rprivate", bit_or Ms.private_mount Ms.recursive)
    ∷ ("private", Ms.private_mount)
    ∷ ("rslave", bit_or Ms.slave Ms.recursive)
    ∷ ("slave", Ms.slave)
    ∷ ("rshared", bit_or Ms.shared Ms.recursive)
    ∷ ("shared", Ms.shared)
    ∷ ("runbindable", bit_or Ms.unbindable Ms.recursive)
    ∷ ("unbindable", Ms.unbindable)
    ∷ []

abbrev pub flags_map : Table
flags_map =
    ("bind", Ms.bind)
    ∷ ("defaults", 0)
    ∷ ("dirsync", Ms.dirsync)
    ∷ ("iversion", Ms.i_version)
    ∷ ("lazytime", Ms.lazytime)
    ∷ ("mand", Ms.mandlock)
    ∷ ("noatime", Ms.noatime)
    ∷ ("nodev", Ms.nodev)
    ∷ ("nodiratime", Ms.nodiratime)
    ∷ ("noexec", Ms.noexec)
    ∷ ("nosuid", Ms.nosuid)
    ∷ ("nosymfollow", Ms.nosymfollow)
    ∷ ("rbind", bit_or Ms.bind Ms.recursive)
    ∷ ("relatime", Ms.relatime)
    ∷ ("remount", Ms.remount)
    ∷ ("ro", Ms.rdonly)
    ∷ ("silent", Ms.silent)
    ∷ ("strictatime", Ms.strictatime)
    ∷ ("sync", Ms.synchronous)
    ∷ []

abbrev pub unset_flags_map : Table
unset_flags_map =
    ("async", Ms.synchronous)
    ∷ ("atime", Ms.noatime)
    ∷ ("dev", Ms.nodev)
    ∷ ("diratime", Ms.nodiratime)
    ∷ ("exec", Ms.noexec)
    ∷ ("loud", Ms.silent)
    ∷ ("noiversion", Ms.i_version)
    ∷ ("nolazytime", Ms.lazytime)
    ∷ ("nomand", Ms.mandlock)
    ∷ ("norelatime", Ms.relatime)
    ∷ ("nostrictatime", Ms.strictatime)
    ∷ ("rw", Ms.rdonly)
    ∷ ("suid", Ms.nosuid)
    ∷ ("symfollow", Ms.nosymfollow)
    ∷ []

pub find : String → Table → Option ℕ
find key [] = none
find key ((k, v) ∷ rest) = if str_eq k key then some v else find key rest

-- The three variables of the loop; `text` is the stream `data`.
pub record Parsed : Type 0 where
  pub flags : ℕ
  pub propagation_flags : ℕ
  pub text : String

-- `unsigned long` has 64 bits, so `~mask` is taken in 64 bits.
abbrev pub clear : ℕ → ℕ → ℕ
clear flags mask = bit_and flags (complement 64 mask)

-- One round, by what the three lookups give: the first table that has the option decides.
pub apply : Option ℕ → Option ℕ → Option ℕ → String → Parsed → Parsed
apply (some mask) unset propagation opt p = record p { flags = bit_or p.flags mask }
apply none (some mask) propagation opt p = record p { flags = clear p.flags mask }
apply none none (some mask) opt p = record p {
  propagation_flags = bit_and p.propagation_flags mask;
}
apply none none none opt p = record p { text = p.text <> ("," <> opt) }

pub step : Parsed → String → Parsed
step p opt =
    apply (find opt flags_map) (find opt unset_flags_map) (find opt propagation_flags_map) opt p

pub loop : Parsed → List String → Parsed
loop p [] = p
loop p (opt ∷ options) = loop (step p opt) options

-- `if (!str.empty()) str = str.substr(1)`
pub drop_first : String → String
drop_first String.[] = ""
drop_first (String.◌∷◌ c s) = s

pub parse_mount_options : List String → Parsed
parse_mount_options options =
    let p = loop (record { flags = 0; propagation_flags = 0; text = "" }) options in
    record p { text = drop_first p.text }
