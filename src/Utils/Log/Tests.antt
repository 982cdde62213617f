-- ===== src/Utils/Log/Tests.antt =====
-- Examples of the laws about the log.
use linglong_box.Prelude.{◌≡◌, refl, ◌≤◌, some, arith}
use linglong_box.Result.{ok}
use linglong_box.Utils.Log.{
  digits_from, atoi_sign, atoi, clamp_level, level_from_env, namespace_name,
}
use linglong_box.Utils.Log.Laws.{level_from_env-bounds, namespace_name-link}

five_read : level_from_env 4 (some "5") ≡ ok 5
unfolding level_from_env clamp_level atoi atoi_sign digits_from
five_read = refl

level_from_env-bounds_example : 5 ≤ 7
level_from_env-bounds_example = level_from_env-bounds 4 (some "5") 5 (omega arith) five_read

namespace_name-link_example : namespace_name "pid:[4026531836]" ≡ some "4026531836"
namespace_name-link_example = namespace_name-link "4026531836"
