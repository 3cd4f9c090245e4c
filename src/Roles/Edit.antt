-- ===== src/Roles/Edit.antt =====
-- crates/vault-roles/src/lib.rs: `edit_meta`, with the immutable version that Coordinación leaves
-- before the edit, and `view`.
use Prim.Native.String.{[], ◌∷◌}
use Prim.Native.Char.{code}
use ubod.Base.{
  ℕ, ◌+◌, ◌%◌, String, append, Bool, true, false, if◌then◌else◌, Option, none, some, ◌==◌, nat_eq,
  string_eq, last?,
}
use ubod.Base.Exec.{Exec, pure, gets, map_err, ◌>>=◌, ◌>>◌}
use ubod.Base.Foreign.{Foreign}
use ubod.Base.Text.{decimal}
use ubod.Core.Records.{Document, DocumentMeta}
use ubod.Core.Role.{can_edit_meta, versions_on_edit, label}
use ubod.Fs.World.{World, on_state, log, now_text, call}
use ubod.Fs.Files.{seal_file, copy_file}
use ubod.Fs.Paths.{abs_path}
use ubod.Store.Documents.{update_document}
use ubod.Store.State.{DbState}
use ubod.Store.Versions.{versions_of, add_version}
use ubod.Roles.{RoleError, denied, fs, Session, guard, require_writable, the_document, save}

-- `rsplit_once(sep)`: what stands before the last separator.
unfoldable pub before_last : ℕ → String → Option String
before_last sep [] = none
before_last sep (c ∷ s) = elim (before_last sep s) [
  | none ↦ if code c == sep then some [] else none
  | some p ↦ some (c ∷ p)
]

-- One more than the newest version, in 32 bits.
unfoldable pub next_version : String → DbState → ℕ
next_version id st = elim (last? (versions_of id st)) [
  | none ↦ 1
  | some v ↦ (v.version + 1) % 4294967296
]

unfoldable pub version_path : Document → ℕ → String
version_path doc n =
    append (elim (before_last b'/' doc.rel_path) [ none ↦ "" | some d ↦ append d "/" ])
      (append ".versiones" (append "/.versions/" (append doc.vault_id (append "_v" (decimal n)))))

-- The metadata with the new values that are given.
abbrev pub given : {A : Type 0} → Option A → A → A
given none a = a
given (some b) a = b

abbrev pub given_some : {A : Type 0} → Option A → Option A → Option A
given_some none a = a
given_some (some b) a = some b

unfoldable pub edited : Option String → Option String → Option ℕ → DocumentMeta → DocumentMeta
edited title department year m = record m {
  title = given title m.title;
  department = given department m.department;
  academic_year = given_some year m.academic_year;
}

abbrev bool_text : Bool → String
bool_text true = "true"
bool_text false = "false"

module _ ⦃f : Foreign⦄ where
  -- The copy of the file, sealed, and its entry among the versions.
  unfoldable pub keep_version :
      Session → String → Document → String → Exec World RoleError (Unit {0})
  keep_version s id doc note = do
    n ← gets (λ w. next_version id w.db.state)
    root ← gets (λ w. w.root)
    let rel = version_path doc n
    call RoleError.io
    copy_file RoleError.io (abs_path root doc.rel_path) (abs_path root rel)
    map_err fs (seal_file (abs_path root rel))
    now ← gets now_text
    on_state (
        add_version (record {
          vault_id = id;
          version = n;
          sha256 = doc.sha256;
          rel_path = rel;
          meta = doc.meta;
          created_by = s.username;
          created_at = now;
          note = note;
        }))

  unfoldable pub edit_meta :
      Session
      → String
      → Option String
      → Option String
      → Option ℕ
      → String
      → Exec World RoleError Document
  edit_meta s id title department year note = do
    guard (can_edit_meta s.role) (denied "editar metadatos")
    require_writable
    doc ← the_document id
    if versions_on_edit s.role then keep_version s id doc note else pure tt
    let new = record doc { meta = edited title department year doc.meta }
    on_state (update_document new)
    log s.username "edit_meta" doc.sha256 (
        append "vault_id=" (
          append id (
            append " nota="
              (append note (append " versionado=" (bool_text (versions_on_edit s.role)))))))
    save
    pure new

  unfoldable pub view : Session → String → Exec World RoleError Document
  view s id = do
    require_writable
    doc ← the_document id
    log s.username "view" doc.sha256
        (append "vault_id=" (append id (append " rol=" (label s.role))))
    save
    pure doc
