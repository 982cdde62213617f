-- ===== src/Program/Retries.antt =====
-- A call that is made again until it is answered in a way that ends the loop.
use linglong_box.Prelude.{ℕ, zero, suc, ◌≡◌, Bool, true, List, [], ◌∷◌, ◌++◌}
use linglong_box.Kernel.{Call, Reply, Kernel}

-- After `h`, the answers to `c` ask for another call `n` times, and then the answer is `last`.
pub data AnsweredAfter (K : Kernel) (c : Call) (again : Reply c → Bool) (last : Reply c)
    : List Call → ℕ → Type 0 where
  now : {h : List Call} → K h c ≡ last → AnsweredAfter K c again last h zero
  later :
      {h : List Call} {n : ℕ}
      → again (K h c) ≡ true
      → AnsweredAfter K c again last (h ++ c ∷ []) n
      → AnsweredAfter K c again last h (suc n)

-- The history after `n` more calls.
abbrev pub calls_more : List Call → Call → ℕ → List Call
calls_more h c zero = h
calls_more h c (suc n) = calls_more (h ++ c ∷ []) c n
