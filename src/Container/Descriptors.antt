-- ===== src/Container/Descriptors.antt =====
-- src/linyaps_box/container.cpp: close_other_fds.
pub mod Laws
use linglong_box.Prelude.{
  ℕ, ◌+◌, ◌-◌, ◌^◌, String, Bool, List, [], ◌∷◌, ltb, leb, ◌==◌, if◌then◌else◌,
}
use linglong_box.Kernel.{close_range}
use linglong_box.Program.{Program, sys, for_each}

-- `std::set<unsigned int>::insert`, on the members in increasing order.
unfoldable pub insert : ℕ → List ℕ → List ℕ
insert x [] = x ∷ []
insert x (y ∷ ys) = if ltb x y then x ∷ y ∷ ys else if x == y then y ∷ ys else y ∷ insert x ys

unfoldable pub insert_all : List ℕ → List ℕ → List ℕ
insert_all [] set = set
insert_all (x ∷ xs) set = insert_all xs (insert x set)

-- `~0U`
abbrev pub max_uint : ℕ
max_uint = 2 ^ 32 - 1

-- `tmp`
unfoldable pub kept : List ℕ → List ℕ
kept except = insert max_uint (insert 0 (insert_all except []))

-- The ranges between neighbours; a range is skipped if `low >= high`.
unfoldable pub ranges : List ℕ → List (ℕ × ℕ)
ranges [] = []
ranges (a ∷ []) = []
ranges (a ∷ b ∷ rest) =
    let low = a + 1 in
    let high = b - 1 in
    let more = ranges (b ∷ rest) in if leb high low then more else (low, high) ∷ more

unfoldable pub close_other_fds : List ℕ → Program Unit
close_other_fds except =
    for_each (λ r. sys (close_range r.0 r.1) "close_range") (ranges (kept except))
