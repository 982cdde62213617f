-- ===== src/Program/Sessions/Agreement.antt =====
-- How what is left to do on one side of a pair of sockets agrees with what is left on the other, and
-- with the bytes that are on their way.
use linglong_box.Prelude.{ℕ, ◌≡◌, ◌≢◌, refl, ap, ◌∙◌, List, [], ◌∷◌, ◌++◌, map}
use linglong_box.Program.Sessions.{Side, Act}

-- `sent` is on its way from `me`, whose acts `mine` are left; `yours` and `coming` are the other side's.
-- One side is ahead by the bytes that it has sent and the other has not read; what comes then is
-- common to the two.
pub data Agree (me you : Side) (mine : List Act) (sent : List ℕ) (yours : List Act)
    (coming : List ℕ) : Type 0 where
  ahead :
      coming ≡ [] → yours ≡ map (λ b. (me, b)) sent ++ mine → Agree me you mine sent yours coming
  behind :
      sent ≡ [] → mine ≡ map (λ b. (you, b)) coming ++ yours → Agree me you mine sent yours coming

one_more :
    (me : Side) (o : List ℕ) (b : ℕ) (s : List Act)
    → map (λ (x : ℕ). (me, x)) o ++ (me, b) ∷ s ≡ map (λ (x : ℕ). (me, x)) (o ++ b ∷ []) ++ s
one_more me [] b s = refl
one_more me (x ∷ o) b s = ap (λ (l : List Act). (me, x) ∷ l) (one_more me o b s)

module _ {me you : Side} where
  pub Agree-swap : {s t : List Act} {o i : List ℕ} → Agree me you s o t i → Agree you me t i s o
  Agree-swap (ahead e f) = behind e f
  Agree-swap (behind e f) = ahead e f

  module _ (different : me ≢ you) where
    pub Agree-send :
        {s t : List Act} {o : List ℕ} {b : ℕ} (i : List ℕ)
        → Agree me you ((me, b) ∷ s) o t i
        → Agree me you s (o ++ b ∷ []) t i
    Agree-send {s} {t} {o} {b} i (ahead e f) = ahead e (f ∙ one_more me o b s)
    Agree-send {o} [] (behind e f) = ahead refl cc
    Agree-send (x ∷ i) (behind e f) = absurd (different cc)

    -- A byte that arrives is the one that the script names.
    pub Agree-receive :
        {s t : List Act} {o i : List ℕ} {b x : ℕ}
        → Agree me you ((you, b) ∷ s) o t (x ∷ i)
        → (x ≡ b) × Agree me you s o t i
    Agree-receive (ahead e f) = absurd cc
    Agree-receive (behind e f) = (cc, behind e cc)

    pub Agree-end : {t : List Act} {o i : List ℕ} {x : ℕ} → ¬ Agree me you [] o t (x ∷ i)
    Agree-end (ahead e f) = cc
    Agree-end (behind e f) = cc
