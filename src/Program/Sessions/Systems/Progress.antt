-- ===== src/Program/Sessions/Systems/Progress.antt =====
-- Two conforming processes never get a byte that they do not expect, and never wait for one another.
use linglong_box.Prelude.{
  ℕ, ◌≡◌, ◌≢◌, refl, sym, ◌⊎◌, inl, inr, Bool, true, false, not, ◌&&◌, List, [], ◌∷◌,
}
use linglong_box.Result.{Error}
use linglong_box.Kernel.{Fd, Reply, read_byte}
use linglong_box.Program.{Program, throw, call}
use linglong_box.Program.Avoids.{is_surprise}
use linglong_box.Program.Sessions.{
  Side, runtime_side, Act, Conforms, returns, throws, leaves, sends, receives, awaits_end, calls,
}
use linglong_box.Program.Sessions.Agreement.{Agree, ahead, behind}
use linglong_box.Program.Sessions.Systems.{
  has_ended, Pair, no_right_writer, CanMove, can_send, can_receive, can_end, can_call,
}
use linglong_box.Program.Sessions.Systems.Frees.{IsFree, Frees-CanMove}
use linglong_box.Program.Sessions.Systems.Keeps.{Standing, agreed, i_alone, you_alone, Inv}

-- The script of a process that reads.
data Awaits (me you : Side) (s : List Act) : Type 0 where
  awaits_byte : (b : ℕ) (rest : List Act) → s ≡ (you, b) ∷ rest → Awaits me you s
  awaits_none : s ≡ [] → me ≡ runtime_side → Awaits me you s

-- A process that reads while nothing is on its way and the other process goes on.
record Blocked {A : Type 0} (me you : Side) (peer_ended : Bool) (s : List Act) (m : Program A)
    (i : List ℕ) : Type 0 where
  awaits : Awaits me you s
  goes_on : has_ended m ≡ false
  nothing : i ≡ []
  peer : peer_ended ≡ false

module _ {A : Type 0} {me you : Side} {socket : Fd} where
  reader :
      {s : List Act} (ended : Bool) (i : List ℕ) (k : Reply (read_byte socket) → Program A)
      → Awaits me you s
      → CanMove socket ended (call (read_byte socket) k) i
        ⊎ Blocked me you ended s (call (read_byte socket) k) i
  reader ended (b ∷ i) k w = inl can_receive
  reader true [] k w = inl (can_end refl)
  reader false [] k w = inr (record { awaits = w; goes_on = refl; nothing = refl; peer = refl })

  stands :
      {s t : List Act} {m : Program A} (ended : Bool) (i : List ℕ)
      → Conforms me you socket s m t
      → (has_ended m ≡ true) ⊎ (CanMove socket ended m i ⊎ Blocked me you ended s m i)
  stands ended i (returns a) = inl refl
  stands ended i (throws e _) = inl refl
  stands ended i leaves = inl refl
  stands ended i (sends k _ _) = inr (inl can_send)
  stands ended i (receives {s} {b} k _ _ _) = inr (reader ended i k (awaits_byte b s refl))
  stands ended i (awaits_end k last _ _) = inr (reader ended i k (awaits_none refl last))
  stands ended i (calls c k quiet _) = inr (inl (can_call quiet))

  pub Conforms-throw :
      {s t : List Act} {m : Program A} (e : Error)
      → Conforms me you socket s m t
      → m ≡ throw e
      → is_surprise e ≡ false
  Conforms-throw e (throws e' p) same = let equal : e ≡ e' = cc in rw equal p
  Conforms-throw e (returns a) same = absurd cc
  Conforms-throw e leaves same = absurd cc
  Conforms-throw e (sends k _ _) same = absurd cc
  Conforms-throw e (receives k _ _ _) same = absurd cc
  Conforms-throw e (awaits_end k _ _ _) same = absurd cc
  Conforms-throw e (calls c k _ _) same = absurd cc

shut : (ended copy : Bool) → copy ≡ false → (ended && not copy) ≡ false → ended ≡ false
shut true true e p = cc
shut true false e p = p
shut false copy e p = refl

-- The left process, which may have a copy of the other end.
left_stands :
    {A : Type 0} {me you : Side} {socket end : Fd} {s t : List Act} {m : Program A}
    (ended copy : Bool) (i : List ℕ)
    → Conforms me you socket s m t
    → IsFree end copy m
    → (has_ended m ≡ true) ⊎ (CanMove socket (ended && not copy) m i ⊎ Blocked me you ended s m i)
left_stands ended copy i conforms (inr frees) = elim (Frees-CanMove i frees) [
  | inl done ↦ inl done
  | inr go ↦ inr (inl go)
]
left_stands ended copy i conforms (inl e) = elim (stands (ended && not copy) i conforms) [
  | inl done ↦ inl done
  | inr (inl go) ↦ inr (inl go)
  | inr (inr b) ↦ inr (
      inr (record {
        awaits = b.awaits;
        goes_on = b.goes_on;
        nothing = b.nothing;
        peer = shut ended copy e b.peer;
      }))
]

module _ {me you : Side} (different : me ≢ you) where
  -- With nothing on its way both scripts are the same, and only one side can read first.
  no_two_readers : {s t : List Act} → Awaits me you s → Awaits you me t → ¬ (s ≡ t)
  no_two_readers (awaits_byte b r e) (awaits_byte c q f) same = different cc
  no_two_readers (awaits_byte b r e) (awaits_none f last) same = cc
  no_two_readers (awaits_none e first) (awaits_byte c q f) same = cc
  no_two_readers (awaits_none e first) (awaits_none f last) same = different cc

  same_script : {s t : List Act} {o i : List ℕ} → Agree me you s o t i → o ≡ [] → i ≡ [] → s ≡ t
  same_script {o = []} {i = []} (ahead e f) p q = sym f
  same_script {o = []} {i = []} (behind e f) p q = f
  same_script {o = x ∷ o} a p q = absurd cc
  same_script {i = x ∷ i} a p q = absurd cc

  never_stuck :
      {A B : Type 0} {s t : List Act} {m : Program A} {n : Program B} {o i : List ℕ}
      → Standing me you (has_ended m) (has_ended n) s o t i
      → Blocked me you (has_ended n) s m i
      → ¬ Blocked you me (has_ended m) t n o
  never_stuck (agreed a) p q = no_two_readers p.awaits q.awaits (same_script a q.nothing p.nothing)
  never_stuck (i_alone e f) p q = let a = p.peer in cc
  never_stuck (you_alone e f) p q = let a = q.peer in cc

  module _ {A B : Type 0} {me_end you_end : Fd} where
    pub Inv-progress :
        (p : Pair A B)
        → Inv me you me_end you_end p
        → IsFree you_end p.left_has_copy p.left
        → ((has_ended p.left ≡ true) × (has_ended p.right ≡ true))
          ⊎ (CanMove me_end (no_right_writer p) p.left p.to_left
              ⊎ CanMove you_end (has_ended p.left) p.right p.to_right)
    Inv-progress p inv free =
        elim (left_stands (has_ended p.right) p.left_has_copy p.to_left inv.left_conforms free) [
          | inr (inl go) ↦ inr (inl go)
          | inl done ↦ elim (stands (has_ended p.left) p.to_right inv.right_conforms) [
            | inl over ↦ inl (done, over)
            | inr (inl go) ↦ inr (inr go)
            | inr (inr stuck) ↦ let a = stuck.peer in absurd cc
          ]
          | inr (inr blocked) ↦ elim (stands (has_ended p.left) p.to_right inv.right_conforms) [
            | inl over ↦ let a = blocked.peer in absurd cc
            | inr (inl go) ↦ inr (inr go)
            | inr (inr stuck) ↦ absurd (never_stuck inv.standing blocked stuck)
          ]
        ]

    pub Inv-left-calm :
        (p : Pair A B)
        → Inv me you me_end you_end p
        → (e : Error) → p.left ≡ throw e
        → is_surprise e ≡ false
    Inv-left-calm p inv e same = Conforms-throw e inv.left_conforms same

    pub Inv-right-calm :
        (p : Pair A B)
        → Inv me you me_end you_end p
        → (e : Error) → p.right ≡ throw e
        → is_surprise e ≡ false
    Inv-right-calm p inv e same = Conforms-throw e inv.right_conforms same
