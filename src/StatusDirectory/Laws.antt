-- ===== src/StatusDirectory/Laws.antt =====
-- What is written to the directory of statuses is read back.
use linglong_box.Prelude.{◌≡◌, refl, ◌∙◌, ap, ℕ, String, ◌<>◌, Option, some, List, [], ◌∷◌, ◌++◌}
use linglong_box.Json.{Json, IsLawful, or_throw}
use linglong_box.Kernel.{Call, Kernel, Reply, write_file, rename_file, read_file, kill, done}
use linglong_box.Program.{Program, ret, call, of_result, run, ◌>>=◌, ◌>>◌}
use linglong_box.Result.{ok}
use linglong_box.Status.{RuntimeStatus, creating, created, running, stopped, unknown, Status}
use linglong_box.StatusDirectory.{
  status_number, status_of_number, status_path, alive, number_member, text_member, read_status,
  status_json, write, read,
}
use linglong_box.Utils.Files.{atomic_write}

-- Files can be written and renamed, and a file that was renamed is read back.
pub record IsStoring (K : Kernel) : Type 0 where
  pub written : (h : List Call) (path text : String) → K h (write_file path text) ≡ done tt
  pub renamed : (h : List Call) (from to : String) → K h (rename_file from to) ≡ done tt
  pub read_back :
      (h : List Call) (from to text : String)
      → K ((h ++ write_file from text ∷ []) ++ rename_file from to ∷ []) (read_file to) ≡ done text

status_back : (s : RuntimeStatus) → status_of_number (status_number s) ≡ s
status_back creating = refl
status_back created = refl
status_back running = refl
status_back stopped = refl
status_back (unknown n) = refl

-- The run returns this value.
pub record Yields {A : Type 0} (K : Kernel) (h : List Call) (m : Program A) (a : A) : Type 0 where
  pub at : (run K h m).0 ≡ ok a

module _ {A : Type 0} {K : Kernel} {h : List Call} {a : A} where
  Yields-ret : (b : A) → b ≡ a → Yields K h (ret b) a
  Yields-ret b e = record { at = ap ok e }

  Yields-call :
      (c : Call) (k : Reply c → Program A) (r : Reply c)
      → K h c ≡ r
      → Yields K (h ++ c ∷ []) (k r) a
      → Yields K h (call c k) a
  Yields-call c k r e y = record {
    at = ap (λ (x : Reply c). (run K (h ++ c ∷ []) (k x)).0) e ∙ y.at;
  }

  -- A step that makes no call and gives a value.
  Yields-step :
      {B : Type 0} (m : Program B) (f : B → Program A) (b : B)
      → m ≡ ret b
      → Yields K h (f b) a
      → Yields K h (m >>= f) a
  Yields-step m f b e y = record { at = ap (λ (x : Program _). (run K h (x >>= f)).0) e ∙ y.at }

or_throw-some : {B : Type 0} (o : Option B) (b : B) → o ≡ some b → of_result (or_throw o) ≡ ret b
or_throw-some o b e = ap (λ (x : Option _). of_result (or_throw x)) e

module _ (J : Json) (L : IsLawful J) where
  number_known :
      (j : J.Value) (key : String) (n : ℕ)
      → J.member j key ≡ some (J.of_number n)
      → number_member J j key ≡ ret n
  number_known j key n e =
      ap
        (λ (o : Option J.Value).
          of_result (or_throw o) >>= λ v. of_result (or_throw (J.get_number v)))
        e
      ∙ or_throw-some _ n (L.number_back n)

  text_known :
      (j : J.Value) (key text : String)
      → J.member j key ≡ some (J.of_string text)
      → text_member J j key ≡ ret text
  text_known j key text e =
      ap
        (λ (o : Option J.Value).
          of_result (or_throw o) >>= λ v. of_result (or_throw (J.get_string v)))
        e
      ∙ or_throw-some _ text (L.string_back text)

  module _ (K : Kernel) where
    abbrev pub seen_alive : List Call → Status → Status
    seen_alive h s = record s { status = alive s.status (K h (kill s.pid 0)) }

    pub read_status-Yields :
        (h : List Call) (path : String) (s : Status)
        → K h (read_file path) ≡ done (J.dump (status_json J s))
        → Yields K h (read_status J path) (seen_alive (h ++ read_file path ∷ []) s)
    unfolding read_status status_json
    read_status-Yields h path s e =
        let j = status_json J s in
        Yields-call (read_file path) _ (done (J.dump j)) e (
          Yields-step (of_result (or_throw (J.parse (J.dump j)))) _ j
            (or_throw-some _ j (L.parse-dump j))
            (Yields-step (number_member J j "pid") _ s.pid
              (number_known j "pid" s.pid (L.member-object _ "pid"))
              (Yields-step (text_member J j "id") _ s.id
                (text_known j "id" s.id (L.member-object _ "id"))
                (Yields-step (number_member J j "status") _ (status_number s.status)
                  (number_known j "status" _ (L.member-object _ "status"))
                  (Yields-call (kill s.pid 0) _ _ refl (
                    Yields-step (text_member J j "bundle") _ s.bundle
                      (text_known j "bundle" _ (L.member-object _ "bundle"))
                      (Yields-step (text_member J j "created") _ s.created_at
                        (text_known j "created" _ (L.member-object _ "created"))
                        (Yields-step (number_member J j "owner") _ s.owner
                          (number_known j "owner" _ (L.member-object _ "owner"))
                          (Yields-step (of_result (or_throw (J.member j "annotations"))) _
                            (J.of_map s.annotations)
                            (or_throw-some _ _ (L.member-object _ "annotations"))
                            (Yields-step (of_result (or_throw (J.get_map (J.of_map s.annotations))))
                              _ s.annotations (or_throw-some _ _ (L.map_back s.annotations))
                              (Yields-ret _ (
                                ap
                                  (λ (t : RuntimeStatus). record s {
                                    status = alive t (K (h ++ read_file path ∷ []) (kill s.pid 0));
                                  })
                                  (status_back s.status)))))))))))))

    -- The calls of a write of a status to its file, and of reading that file.
    pub stored : String → Status → List Call → List Call
    stored path s h =
        ((h ++ write_file (path <> ".tmp") (J.dump (status_json J s)) ∷ [])
          ++ rename_file (path <> ".tmp") path ∷ [])
        ++ read_file path ∷ []

    write-read-Yields :
        IsStoring K
        → (dir : String) (s : Status) (h : List Call)
        → Yields K h
            (write J dir s >> read J dir s.id)
            (seen_alive (stored (status_path dir s.id) s h) s)
    unfolding write read atomic_write stored
    write-read-Yields S dir s h =
        let path = status_path dir s.id in
        let text = J.dump (status_json J s) in
        Yields-call (write_file (path <> ".tmp") text) _ (done tt) (S.written h _ _) (
          Yields-call (rename_file (path <> ".tmp") path) _ (done tt) (S.renamed _ _ _)
            (read_status-Yields _ path s (S.read_back h _ path text)))

    -- With a JSON library that reads back what it dumps, and files that are read back as they were
    -- renamed, a status that was written is read back as it was, but that its status is STOPPED if
    -- the call kill(pid, 0) fails, for whatever reason.
    pub write-read :
        IsStoring K
        → (dir : String) (s : Status) (h : List Call)
        → (run K h (write J dir s >> read J dir s.id)).0
          ≡ ok (record s {
            status = alive s.status (K (stored (status_path dir s.id) s h) (kill s.pid 0));
          })
    write-read S dir s h = (write-read-Yields S dir s h).at
