-- ===== src/Config/MountOptions/Tests.antt =====
-- Runs of the parser of mount options, and examples of its laws.
use linglong_box.Prelude.{◌≡◌, refl, String, [], ◌∷◌, List, arith}
use linglong_box.Prelude.Bits.{bit, complement}
use linglong_box.Config.MountOptions.{
  Parsed, find, apply, step, loop, drop_first, parse_mount_options,
}
use linglong_box.Config.MountOptions.Laws.{
  parse_mount_options-propagation, parse_mount_options-bit, parse_mount_options-text, decided, join,
  unknown,
}

abbrev options : List String
options = "ro" ∷ "nosuid" ∷ "size=64k" ∷ "rslave" ∷ "rw" ∷ "mode=755" ∷ []

run : List String → Parsed
unfolding find apply step loop drop_first parse_mount_options
run = parse_mount_options

options_text : (run options).text ≡ "size=64k,mode=755"
unfolding run
options_text = refl

options_flags : (run options).flags ≡ 2
unfolding run complement
options_flags = refl

parse_mount_options-propagation_example : (parse_mount_options options).propagation_flags ≡ 0
parse_mount_options-propagation_example = parse_mount_options-propagation options

parse_mount_options-bit_example : bit 1 (parse_mount_options options).flags ≡ decided 1 0 options
parse_mount_options-bit_example = parse_mount_options-bit 1 options (omega arith)

parse_mount_options-text_example : (parse_mount_options options).text ≡ join (unknown options)
parse_mount_options-text_example = parse_mount_options-text options
