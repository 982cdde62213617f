-- ===== src/StatusDirectory/Updates.antt =====
-- src/linyaps_box/impl/status_directory.cpp: what writing and removing statuses makes of the files.
use linglong_box.Prelude.{
  ◌≡◌, refl, ap, ◌∙◌, ℕ, String, ◌<>◌, false, List, [], ◌∷◌, ◌++◌, All, str_eq,
}
use linglong_box.Json.{Json, entry}
use linglong_box.Kernel.{Call, Reply, Kernel, Outcome, write_file, rename_file, remove_file}
use linglong_box.Program.{Program, ret, call, run, ◌>>=◌}
use linglong_box.Program.Laws.{continue, run-bind, run-call}
use linglong_box.Result.{ok}
use linglong_box.Status.{Status}
use linglong_box.StatusDirectory.{status_path, write, remove}
use linglong_box.StatusDirectory.FileSystem.{
  Files, erase, placed, files_at, IsFileSystem, files_at-call,
}
use linglong_box.StatusDirectory.Store.{
  Store, Update, put, drop, updated, updated_by, IsNamed, IsUsable, updated-IsNamed, str_eq_refl,
  erase-absent, perform, perform_all, text_of, image, erase-image, image-tmp,
}
use linglong_box.Utils.Files.{atomic_write}
use linglong_box.Utils.Paths.Laws.{IsName}

-- The run returns this value and makes this of the history.
pub record Runs {A : Type 0} (K : Kernel) (h : List Call) (m : Program A) (a : A) (g : List Call)
    : Type 0 where
  pub at : run K h m ≡ (ok a, g)

module _ {A : Type 0} {K : Kernel} {h : List Call} where
  pub Runs-ret : (a : A) → Runs K h (ret a) a h
  Runs-ret a = record { at = refl }

  pub Runs-call :
      {a : A} {g : List Call} (c : Call) (k : Reply c → Program A) (r : Reply c)
      → K h c ≡ r
      → Runs K (h ++ c ∷ []) (k r) a g
      → Runs K h (call c k) a g
  Runs-call c k r e y = record { at = run-call K h c k r e ∙ y.at }

  pub Runs-bind :
      {B : Type 0} {m : Program B} {b : B} {g : List Call} (f : B → Program A)
      → Runs K h m b g
      → run K h (m >>= f) ≡ run K g (f b)
  Runs-bind {m = m} f r = run-bind K h m f ∙ ap (continue K f) r.at

placed-tmp :
    (path tmp text : String) (files : Files)
    → All (λ f. str_eq f.0 tmp ≡ false) files
    → placed path (entry ((tmp, text) ∷ files) tmp) (erase tmp ((tmp, text) ∷ files))
      ≡ (path, text) ∷ erase path files
placed-tmp path tmp text files absent =
    rw (str_eq_refl tmp)
      (ap (λ (l : Files). (path, text) ∷ erase path l) (erase-absent tmp files absent))

module _ (J : Json) (dir : String) {start : Files} {signal : ℕ → Outcome Unit} {K : Kernel}
    (S : IsFileSystem dir start signal K) where
  -- After the calls so far the files stand for the store.
  pub record Holds (h : List Call) (store : Store) : Type 0 where
    pub files : files_at start h ≡ image J dir store
    pub named : IsNamed store

  abbrev calls_of : Update → List Call → List Call
  calls_of (put s) h =
      (h ++ write_file (status_path dir s.id <> ".tmp") (text_of J dir s) ∷ [])
      ++ rename_file (status_path dir s.id <> ".tmp") (status_path dir s.id) ∷ []
  calls_of (drop id) h = h ++ remove_file (status_path dir id) ∷ []

  module _ {h : List Call} {store : Store} (H : Holds h store) where
    -- The files between the write of the temporary file and its renaming.
    written_tmp :
        (s : Status)
        → IsName s.id
        → files_at start (h ++ write_file (status_path dir s.id <> ".tmp") (text_of J dir s) ∷ [])
          ≡ (status_path dir s.id <> ".tmp", text_of J dir s) ∷ image J dir store
    written_tmp s n =
        files_at-call start h _
        ∙ ap (λ (l : Files). (status_path dir s.id <> ".tmp", text_of J dir s) ∷ l)
            (ap (erase (status_path dir s.id <> ".tmp")) H.files
              ∙ erase-absent _ _ (image-tmp J dir s.id store n H.named))

    perform-Runs : (u : Update) → IsUsable u → Runs K h (perform J dir u) tt (calls_of u h)
    unfolding write remove atomic_write
    perform-Runs (put s) n =
        let tmp = status_path dir s.id <> ".tmp" in
        Runs-call (write_file tmp (text_of J dir s)) _ _ (S.answers_write h tmp (text_of J dir s)) (
          Runs-call (rename_file tmp (status_path dir s.id)) _ _
            (S.answers_rename _ tmp (status_path dir s.id) (text_of J dir s)
              (ap (λ (l : Files). entry l tmp) (written_tmp s n) ∙ rw (str_eq_refl tmp) refl))
            (Runs-ret tt))
    perform-Runs (drop id) n =
        Runs-call (remove_file (status_path dir id)) _ _ (S.answers_remove h _) (Runs-ret tt)

    perform-Holds : (u : Update) → IsUsable u → Holds (calls_of u h) (updated store u)
    perform-Holds (put s) n =
        let tmp = status_path dir s.id <> ".tmp" in
        let path = status_path dir s.id in
        record {
          files =
              files_at-call start (h ++ write_file tmp (text_of J dir s) ∷ [])
                (rename_file tmp path)
              ∙ ap (λ (l : Files). placed path (entry l tmp) (erase tmp l)) (written_tmp s n)
              ∙ placed-tmp path tmp (text_of J dir s) (image J dir store)
                  (image-tmp J dir s.id store n H.named)
              ∙ ap (λ (l : Files). (path, text_of J dir s) ∷ l)
                  (erase-image J dir s.id store n H.named);
          named = updated-IsNamed store (put s) n H.named;
        }
    perform-Holds (drop id) n = record {
      files =
          files_at-call start h _
          ∙ ap (erase (status_path dir id)) H.files
          ∙ erase-image J dir id store n H.named;
      named = updated-IsNamed store (drop id) n H.named;
    }

  -- The calls of a sequence of updates.
  abbrev calls_of_all : List Update → List Call → List Call
  calls_of_all [] h = h
  calls_of_all (u ∷ us) h = calls_of_all us (calls_of u h)

  pub record Performs (h : List Call) (store : Store) (us : List Update) : Type 0 where
    pub runs : Runs K h (perform_all J dir us) tt (calls_of_all us h)
    pub holds : Holds (calls_of_all us h) (updated_by store us)

  -- Updates of usable names succeed, and the files stand for the updated store.
  pub perform_all-Holds :
      (us : List Update) {h : List Call} {store : Store}
      → All IsUsable us
      → Holds h store
      → Performs h store us
  perform_all-Holds [] n H = record { runs = Runs-ret tt; holds = H }
  perform_all-Holds (u ∷ us) n H =
      let rest = perform_all-Holds us n.1 (perform-Holds H u n.0) in
      record {
        runs = record {
          at = Runs-bind (λ _. perform_all J dir us) (perform-Runs H u n.0) ∙ rest.runs.at;
        };
        holds = rest.holds;
      }
