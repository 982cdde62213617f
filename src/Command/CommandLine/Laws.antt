-- ===== src/Command/CommandLine/Laws.antt =====
-- What main does with the command line.
use linglong_box.Prelude.{
  ◌≡◌, refl, ap, ◌⊎◌, inl, inr, ℕ, Bool, true, false, none, Option-cases, if◌then◌else◌,
}
use linglong_box.Config.Parser.Entries.{Unset}
use linglong_box.Json.{Json}
use linglong_box.Command.{Chosen, main}
use linglong_box.Command.CommandLine.{CliResult, chosen, options_of}

-- `require_subcommand`: a parse that succeeds has parsed a subcommand.
pub record HasSubcommand (r : CliResult) : Type 0 where
  pub parsed :
      r.exit_code ≡ none
      → (r.parsed "list" ≡ true)
        ⊎ ((r.parsed "run" ≡ true) ⊎ ((r.parsed "exec" ≡ true) ⊎ (r.parsed "kill" ≡ true)))

else-same :
    {A : Type 0} (b : Bool) (x : A) {y z : A} → y ≡ z → (if b then x else y) ≡ (if b then x else z)
else-same true x e = refl
else-same false x e = e

module _ (r : CliResult) (one other : Chosen) where
  chosen-same :
      (r.parsed "list" ≡ true)
        ⊎ ((r.parsed "run" ≡ true) ⊎ ((r.parsed "exec" ≡ true) ⊎ (r.parsed "kill" ≡ true)))
      → chosen one r ≡ chosen other r
  unfolding chosen
  chosen-same (inl e) = rw e refl
  chosen-same (inr (inl e)) = else-same (r.parsed "list") _ (rw e refl)
  chosen-same (inr (inr (inl e))) =
      else-same (r.parsed "list") _ (else-same (r.parsed "run") _ (rw e refl))
  chosen-same (inr (inr (inr e))) =
      else-same (r.parsed "list") _
        (else-same (r.parsed "run") _ (else-same (r.parsed "exec") _ (rw e refl)))

  -- Where CLI11 requires a subcommand, main never depends on what the member `command`, which has no
  -- initial value, holds before the command line is parsed.
  pub main-options_of :
      (J : Json) (retries : ℕ) (unset : Unset)
      → HasSubcommand r
      → main J retries unset (options_of one r) ≡ main J retries unset (options_of other r)
  unfolding options_of main
  main-options_of J retries unset has = elim (Option-cases r.exit_code) [
    | inl e ↦
        ap
          (λ (command : Chosen).
            main J retries unset
              (record { root = r.value "" "--root"; return_code = r.exit_code; command = command }))
          (chosen-same (has.parsed e))
    | inr (code, e) ↦ rw e refl
  ]
