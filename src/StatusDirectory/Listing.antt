-- ===== src/StatusDirectory/Listing.antt =====
-- src/linyaps_box/impl/status_directory.cpp: what list gives, from a directory whose files stand for a
-- store.
use mathlib.Core.List.{Perm}
use mathlib.Core.List.Perm
use linglong_box.Prelude.{
  ◌≡◌, refl, ap, ◌∙◌, ℕ, String, Bool, true, none, some, List, [], ◌∷◌, ◌++◌, All, map, str_eq,
  eq_iff, Bool-cases, inl, inr,
}
use linglong_box.Prelude.Permutations.{All-perm, perm-map}
use linglong_box.Json.{Json, IsLawful}
use linglong_box.Kernel.{Call, Kernel, Outcome, list_directory, done}
use linglong_box.Program.{Program, ret, run, ◌>>=◌, ◌>>◌, catch, value_or}
use linglong_box.Program.Laws.{run-call, bind-ok, map-ok, catch-ok}
use linglong_box.Program.Traces.{Always}
use linglong_box.Program.Traces.Quiet.{quiet_rules}
use linglong_box.Result.{Result, ok}
use linglong_box.Status.{Status}
use linglong_box.StatusDirectory.{status_path, read_status, read_entry, list_entries, list}
use linglong_box.StatusDirectory.FileSystem.{
  Files, regular, file_change, IsFileSystem, files_at-call, files_at-Always,
}
use linglong_box.StatusDirectory.Laws.{Yields}
use linglong_box.StatusDirectory.Paths.{extension-status_path}
use linglong_box.StatusDirectory.Refinement.{shown, read_status-found}
use linglong_box.StatusDirectory.Store.{
  Store, Update, updated_by, find, file_of, IsNamed, IsUsable, image, perform_all, str_eq_refl,
}
use linglong_box.StatusDirectory.Updates.{Holds, perform_all-Holds, Runs-bind}
use linglong_box.Utils.Paths.Laws.{IsName}

-- The store has a status for the id of this one.
record IsFound (store : Store) (z : Status) : Type 0 where
  named : IsName z.id
  status : Status
  found : find z.id store ≡ some status
  same : status.id ≡ z.id

more-IsFound : (s : Status) (store : Store) (z : Status) → IsFound store z → IsFound (s ∷ store) z
more-IsFound s store z f = elim (Bool-cases (str_eq s.id z.id)) [
  | inl e ↦ record { named = f.named; status = s; found = rw e refl; same = (eq_iff s.id z.id).0 e }
  | inr e ↦ record { named = f.named; status = f.status; found = rw e f.found; same = f.same }
]

All-more : (s : Status) (store zs : Store) → All (IsFound store) zs → All (IsFound (s ∷ store)) zs
All-more s store [] all = tt
All-more s store (z ∷ zs) all = (more-IsFound s store z all.0, All-more s store zs all.1)

all-IsFound : (store : Store) → IsNamed store → All (IsFound store) store
all-IsFound [] n = tt
all-IsFound (s ∷ store) n = (
  record { named = n.0; status = s; found = rw (str_eq_refl s.id) refl; same = refl },
  All-more s store store (all-IsFound store n.1),
)

module _ (J : Json) (dir : String) where
  -- What an entry of the directory adds to the list.
  abbrev item : String × Bool → Program (List String)
  item e = catch (read_entry J dir e >>= λ id. ret (id ∷ [])) (λ _. ret [])

  read_status-Always : (path : String) → Always file_change (read_status J path) []
  unfolding read_status
  read_status-Always path = search quiet_rules depth 24 fits 4000

  item-Always : (e : String × Bool) → Always file_change (item e) []
  unfolding read_entry
  item-Always e = search (quiet_rules, read_status-Always)

module _ (J : Json) (L : IsLawful J) (blank : J.parse "" ≡ none) (dir : String) {start : Files}
    {signal : ℕ → Outcome Unit} {K : Kernel} (S : IsFileSystem dir start signal K) where
  item-Yields :
      {h : List Call} {store : Store} (z : Status)
      → Holds J dir S h store
      → IsFound store z
      → Yields K h (item J dir (status_path dir z.id, true)) (z.id ∷ [])
  unfolding read_entry
  item-Yields {h} z H f =
      let path = status_path dir z.id in
      let read =
        map-ok K h (read_status J path) (λ (t : Status). t.id) (shown signal f.status)
          (read_status-found J L blank dir S f.status z.id H f.named f.found).at in
      record {
        at =
            catch-ok K h (read_entry J dir (path, true) >>= λ id. ret (id ∷ [])) (λ _. ret [])
              (z.id ∷ [])
              (rw (extension-status_path dir z.id f.named) (
                map-ok K h (read_status J path >>= λ s. ret s.id) (λ id. id ∷ []) z.id
                  (read ∙ ap ok f.same)));
      }

  list_entries-ok :
      (zs : Store) {h : List Call} {store : Store}
      → Holds J dir S h store
      → All (IsFound store) zs
      → (run K h (list_entries J dir (map regular (image J dir zs)))).0 ≡ ok (map (λ z. z.id) zs)
  unfolding list_entries
  list_entries-ok [] H all = refl
  list_entries-ok (z ∷ zs) {h} H all =
      let e : String × Bool = (status_path dir z.id, true) in
      let rest = list_entries J dir (map regular (image J dir zs)) in
      let after = (run K h (item J dir e)).1 in
      let kept : Holds J dir S after _ = record {
        files = files_at-Always start (item J dir e) (item-Always J dir e) K h ∙ H.files;
        named = H.named;
      } in
      bind-ok K h (item J dir e) (λ found. rest >>= λ ids. ret (found ++ ids)) (z.id ∷ [])
        (item-Yields z H all.0).at
      ∙ map-ok K after rest (λ ids. z.id ∷ ids) (map (λ z. z.id) zs) (list_entries-ok zs kept all.1)

  abbrev Lists : List Call → Store → Type 0
  Lists h store =
      (ids : List String) × ((run K h (list J dir)).0 ≡ ok ids)
      × Perm ids (map (λ (s : Status). s.id) store)

  list-Perm : {h : List Call} {store : Store} → Holds J dir S h store → Lists h store
  unfolding list
  list-Perm {h} {store} H =
      let (listed, answer, order) = S.answers_list h in
      let (zs, same, order_of) = perm-map (file_of J dir) order store H.files in
      let after : Holds J dir S (h ++ list_directory dir ∷ []) store = record {
        files = files_at-call start h (list_directory dir) ∙ H.files;
        named = H.named;
      } in
      (
        map (λ z. z.id) zs,
        ap (λ (r : Result (List String) × List Call). r.0)
              (run-call K h (list_directory dir)
                (λ r. value_or "directory_iterator" r >>= λ entries. list_entries J dir entries)
                (done (map regular (image J dir zs)))
                (answer ∙ ap (λ (l : Files). done (map regular l)) same))
            ∙ list_entries-ok zs after (All-perm _ order_of (all-IsFound store H.named)),
        Perm.map (λ (s : Status). s.id) ∣ order_of ∣₁,
      )

  -- After any updates of usable names, from files that stand for a store on, list returns the ids of
  -- the updated store, each as often as the store has it, in the order in which the system gives the
  -- files.
  pub list-updated_by :
      {h : List Call} {store : Store} (us : List Update)
      → Holds J dir S h store
      → All IsUsable us
      → (ids : List String) × ((run K h (perform_all J dir us >> list J dir)).0 ≡ ok ids)
        × Perm ids (map (λ (s : Status). s.id) (updated_by store us))
  list-updated_by us H usable =
      let updates = perform_all-Holds J dir S us usable H in
      let (ids, value, order) = list-Perm updates.holds in
      (
        ids,
        ap (λ (r : Result (List String) × List Call). r.0)
              (Runs-bind (λ _. list J dir) updates.runs)
            ∙ value,
        order,
      )
