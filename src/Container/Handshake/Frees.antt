-- ===== src/Container/Handshake/Frees.antt =====
-- src/linyaps_box/container.cpp: the process of a container closes its copy of the runtime's end before it
-- uses its own end of the socket pair.
use linglong_box.Prelude.{
  ℕ, ◌≡◌, ◌≢◌, refl, ◌^◌, ◌<◌, true, false, ◌&&◌, leb, some, List, [], ◌∷◌, arith, ◌∙◌, ◌+◌, ◌-◌,
}
use linglong_box.Config.{Process}
use linglong_box.Kernel.{close_range, Outcome, done, failed}
use linglong_box.Program.{Program, value_or, ◌>>=◌, ◌>>◌}
use linglong_box.Program.Sessions.Systems.{lets_go}
use linglong_box.Program.Sessions.Systems.Frees.{Frees, frees_throw, frees_call, Frees-after}
use linglong_box.Container.Defs.{Container}
use linglong_box.Container.Descriptors.{close_other_fds, ranges, kept}
use linglong_box.Container.Descriptors.Laws.{
  member, isolated, covered, ranges_of, member-kept, covered-kept,
}
use linglong_box.Container.Lifecycle.{clone_body}
use linglong_box.Container.Mounter.{Unset}
use linglong_box.Container.Ordinary.{IsOrdinary-Silent}
use linglong_box.Container.Ordinary.Process.{wait_for_tracer-IsOrdinary}

-- The numbers of the ends of the socket pair, that of the process of the container first. They are
-- `int`s, behind the standard streams, and the runtime's is not the single number between those and the
-- other, which `close_other_fds` would leave open.
pub record AreEnds (child_end runtime_end : ℕ) : Type 0 where
  pub child_fits : child_end < 2 ^ 31
  pub runtime_fits : runtime_end < 2 ^ 31
  pub behind_streams : 2 < runtime_end
  pub apart : runtime_end ≢ child_end
  pub no_gap : ¬ ((runtime_end ≡ 3) × (child_end ≡ 4))

module _ {A : Type 0} (b : ℕ) (f : Unit {0} → Program A) where
  covered-next :
      (low high : ℕ) (rs : List (ℕ × ℕ))
      → covered b ((low, high) ∷ rs) ≡ true
      → (leb low b && leb b high) ≡ false
      → covered b rs ≡ true
  unfolding covered
  covered-next low high rs e out = ground arith

  ranges_of-Frees : (rs : List (ℕ × ℕ)) → covered b rs ≡ true → Frees (some b) (ranges_of rs >>= f)
  unfolding covered
  ranges_of-Frees [] e = absurd cc
  ranges_of-Frees ((low, high) ∷ rs) e =
      frees_call (close_range low high) _ refl (after (ranges_of-Frees rs))
    where
      after :
          (covered b rs ≡ true → Frees (some b) (ranges_of rs >>= f))
          → (r : Outcome Unit) → lets_go (some b) (close_range low high) r ≡ false
          → Frees (some b) ((value_or "close_range" r >> ranges_of rs) >>= f)
      after more (done _) out = more (covered-next low high rs e out)
      after more (failed n) out = frees_throw _

closed_end :
    (child_end runtime_end : ℕ)
    → AreEnds child_end runtime_end
    → covered runtime_end (ranges (kept (0 ∷ 1 ∷ 2 ∷ child_end ∷ []))) ≡ true
unfolding isolated member
closed_end a b ends =
    let fits : a < 2147483648 = ends.child_fits in
    let small : b < 2147483648 = ends.runtime_fits in
    let behind : 2 < b = ends.behind_streams in
    let apart : ¬ (b ≡ a) = ends.apart in
    let gap : ¬ ((b ≡ 3) × (a ≡ 4)) = ends.no_gap in
    let except : List ℕ = 0 ∷ 1 ∷ 2 ∷ a ∷ [] in
    covered-kept b except (omega arith, (omega arith, (omega arith, (omega arith, tt))))
      (omega arith) (omega arith)
    ∙ rw (member-kept b except, member-kept (b - 1) except, member-kept (b + 1) except)
        (ground arith)

pub clone_body-Frees :
    (retries layers : ℕ) (unset : Unset) (c : Container) (process : Process)
    (child_end runtime_end : ℕ)
    → AreEnds child_end runtime_end
    → Frees (some runtime_end) (clone_body retries layers unset c process (some child_end))
unfolding clone_body close_other_fds
clone_body-Frees retries layers unset c process a b ends =
    Frees-after (IsOrdinary-Silent wait_for_tracer-IsOrdinary)
      λ _. ranges_of-Frees b _ (ranges (kept (0 ∷ 1 ∷ 2 ∷ a ∷ []))) (closed_end a b ends)
