-- ===== src/StatusDirectory/Refinement.antt =====
-- src/linyaps_box/impl/status_directory.cpp: a directory of files is a store of statuses by their ids.
use linglong_box.Prelude.{
  ◌≡◌, refl, sym, ap, ◌∙◌, ℕ, String, none, some, Option, List, All, Option-cases, inl, inr,
}
use linglong_box.Json.{Json, IsLawful, entry}
use linglong_box.Kernel.{Call, Kernel, Outcome, read_file, failed}
use linglong_box.Program.{run, ◌>>◌}
use linglong_box.Result.{Result, ok, err, json_error}
use linglong_box.Status.{Status}
use linglong_box.StatusDirectory.{status_path, read_status, read, alive}
use linglong_box.StatusDirectory.FileSystem.{Files, files_at, IsFileSystem}
use linglong_box.StatusDirectory.Laws.{Yields, read_status-Yields}
use linglong_box.StatusDirectory.Store.{
  Store, Update, updated_by, find, IsUsable, text_found, entry-image, perform_all,
}
use linglong_box.StatusDirectory.Updates.{Holds, perform_all-Holds, Runs-bind}
use linglong_box.Utils.Paths.Laws.{IsName}

-- A status as reading it shows it.
abbrev pub shown : (ℕ → Outcome Unit) → Status → Status
shown signal s = record s { status = alive s.status (signal s.pid) }

abbrev pub looked_up : (ℕ → Outcome Unit) → Option Status → Result Status
looked_up signal none = err json_error
looked_up signal (some s) = ok (shown signal s)

unreadable :
    (J : Json)
    → J.parse "" ≡ none
    → (K : Kernel) (h : List Call) (path : String) (code : ℕ) → K h (read_file path) ≡ failed code
    → (run K h (read_status J path)).0 ≡ err json_error
unfolding read_status
unreadable J blank K h path code e = rw (run, e, blank) refl

module _ (J : Json) (L : IsLawful J) (blank : J.parse "" ≡ none) (dir : String) {start : Files}
    {signal : ℕ → Outcome Unit} {K : Kernel} (S : IsFileSystem dir start signal K) where
  pub read_status-found :
      {h : List Call} {store : Store} (s : Status) (id : String)
      → Holds J dir S h store
      → IsName id
      → find id store ≡ some s
      → Yields K h (read_status J (status_path dir id)) (shown signal s)
  read_status-found {h} {store} s id H n found = record {
    at =
        (read_status-Yields J L K h (status_path dir id) s (
          S.answers_read h _ _ (
            ap (λ (l : Files). entry l (status_path dir id)) H.files
            ∙ entry-image J dir id store n H.named
            ∙ ap (text_found J dir) found))).at
        ∙ ap (λ (r : Outcome Unit). ok (record s { status = alive s.status r }))
            (S.answers_signal _ s.pid);
  }

  read_status-missing :
      {h : List Call} {store : Store} (id : String)
      → Holds J dir S h store
      → IsName id
      → find id store ≡ none
      → (run K h (read_status J (status_path dir id))).0 ≡ err json_error
  unfolding read_status
  read_status-missing {h} {store} id H n missing =
      let none_there : entry (files_at start h) (status_path dir id) ≡ none =
        ap (λ (l : Files). entry l (status_path dir id)) H.files
        ∙ entry-image J dir id store n H.named
        ∙ ap (text_found J dir) missing in
      let answer = S.answers_missing h (status_path dir id) none_there in
      unreadable J blank K h (status_path dir id) answer.0 answer.1

  read-looked_up :
      {h : List Call} {store : Store} (id : String)
      → Holds J dir S h store
      → IsName id
      → (run K h (read J dir id)).0 ≡ looked_up signal (find id store)
  unfolding read
  read-looked_up {h} {store} id H n = elim (Option-cases (find id store)) [
    | inl e ↦ read_status-missing id H n e ∙ ap (looked_up signal) (sym e)
    | inr (s, e) ↦ (read_status-found s id H n e).at ∙ ap (looked_up signal) (sym e)
  ]

  -- After any updates of usable names, from files that stand for a store on, reading an id gives the
  -- status that the updated store has for it, STOPPED if its process is gone, and throws if it has
  -- none.
  pub read-updated_by :
      {h : List Call} {store : Store} (us : List Update) (id : String)
      → Holds J dir S h store
      → All IsUsable us
      → IsName id
      → (run K h (perform_all J dir us >> read J dir id)).0
        ≡ looked_up signal (find id (updated_by store us))
  read-updated_by us id H usable n =
      let done_updates = perform_all-Holds J dir S us usable H in
      ap (λ (r : Result Status × List Call). r.0) (Runs-bind (λ _. read J dir id) done_updates.runs)
      ∙ read-looked_up id done_updates.holds n
