-- ===== src/StatusDirectory/Paths.antt =====
-- src/linyaps_box/impl/status_directory.cpp: the paths of the files that hold statuses.
use text.Mathlib.TextLemmas.{nil-append, cons-append, append_cancel_right}
use linglong_box.Prelude.{◌≡◌, refl, sym, ap, ◌∙◌, ◌≢◌, String, ◌<>◌, true, false, str_eq}
use linglong_box.StatusDirectory.{status_path, last_dot, extension_of_name, extension}
use linglong_box.Utils.Paths.{append}
use linglong_box.Utils.Paths.Laws.{
  Slashless, IsName, IsName-append, filename-append, append-injective, append-suffix,
}

last_dot-append : (s e : String) → last_dot e ≡ e → str_eq e "" ≡ false → last_dot (s <> e) ≡ e
unfolding last_dot
last_dot-append String.[] e dot more = ap last_dot (nil-append e) ∙ dot
last_dot-append (String.◌∷◌ c s) e dot more =
    rw (cons-append c s e) (rw (last_dot-append s e dot more, more) refl)

extension_of_name-append :
    (s e : String)
    → IsName s
    → last_dot e ≡ e
    → str_eq e "" ≡ false
    → extension_of_name (s <> e) ≡ e
unfolding extension_of_name
extension_of_name-append String.[] e n dot more = let no : true ≡ false = n.nonempty in cc
extension_of_name-append (String.◌∷◌ c s) e n dot more =
    rw (cons-append c s e) (last_dot-append s e dot more)

extension-append :
    (dir s e : String)
    → IsName s
    → Slashless e
    → last_dot e ≡ e
    → str_eq e "" ≡ false
    → extension (append dir (s <> e)) ≡ e
unfolding extension
extension-append dir s e n he dot more =
    rw (filename-append dir (s <> e) (IsName-append s e n he))
      (extension_of_name-append s e n dot more)

json-Slashless : Slashless ".json"
json-Slashless = (refl, (refl, (refl, (refl, (refl, tt)))))

tmp-Slashless : Slashless ".tmp"
tmp-Slashless = (refl, (refl, (refl, (refl, tt))))

json-IsName : (id : String) → IsName id → IsName (id <> ".json")
json-IsName id n = IsName-append id ".json" n json-Slashless

pub extension-status_path : (dir id : String) → IsName id → extension (status_path dir id) ≡ ".json"
unfolding status_path last_dot
extension-status_path dir id n = extension-append dir id ".json" n json-Slashless refl refl

pub status_path-injective :
    (dir id other : String)
    → IsName id
    → IsName other
    → status_path dir id ≡ status_path dir other
    → id ≡ other
unfolding status_path
status_path-injective dir id other n m e = append_cancel_right id other ".json" (
    append-injective dir (id <> ".json") (other <> ".json") (json-IsName id n) (json-IsName other m)
      e)

-- The path of a temporary file is not that of a status.
pub status_path-tmp :
    (dir id other : String)
    → IsName id
    → IsName other
    → status_path dir other ≢ (status_path dir id <> ".tmp")
unfolding status_path last_dot
status_path-tmp dir id other n m e =
    let named : extension (status_path dir id <> ".tmp") ≡ ".tmp" =
      ap extension (sym (append-suffix dir (id <> ".json") ".tmp" (json-IsName id n) tmp-Slashless))
      ∙ extension-append dir (id <> ".json") ".tmp" (json-IsName id n) tmp-Slashless refl refl in
    let clash : false ≡ true =
      ap (λ s. str_eq s ".tmp")
        (sym (extension-status_path dir other m) ∙ ap extension e ∙ named) in
    cc
