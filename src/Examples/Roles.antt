-- ===== src/Examples/Roles.antt =====
-- Examples for crates/vault-roles/src/lib.rs.
use mathlib.Core.List.{Perm}
use ubod.Base.{ℕ, String, ◌≡◌, ◌≢◌, refl, List, [], ◌∷◌, ◌++◌, some, none, string_eq, true, false}
use ubod.Base.Exec.{ok, err}
use ubod.Base.Text.{trim, is_whitespace, split_on, join, starts_with, ends_with}
use ubod.Core.Records.{DocumentVersion}
use ubod.Core.Role.{can_rename_or_move}
use ubod.Fs.World.{File, lookup}
use ubod.Fs.Files.{is_taken}
use ubod.Fs.Files.Sealing.{with_files, sealed}
use ubod.Fs.Paths.{abs_path}
use ubod.Store.State.{AuditEntry}
use ubod.Store.Audit.{verify_from, verify_audit_chain}
use ubod.Store.Documents.{find_by_vault_id}
use ubod.Roles.{denied}
use ubod.Roles.Chain.{serve_all-Verified, serve_all-append}
use ubod.Roles.Custody.{vault_ids, serve_all-vault_ids}
use ubod.Roles.Denials.{serve_document_denied, serve_read_only}
use ubod.Roles.Moved.{rename_effect, new_doc, renamed_state, flushed}
use ubod.Roles.Moves.{rename, is_bad_name, renamed_path, set_last}
use ubod.Roles.Service.{
  Request, serve, serve_document, serve_all, to_rename, to_delete, to_restore, to_edit, on_document,
}
use ubod.Roles.{Session}
use ubod.Examples.{
  toy, a_world, a_document, a_file, a_meta, locked_world, a_teacher, an_administrator,
  a_coordinator,
}

-- A morning at the vault, with one request that is refused.
abbrev requests : List (Session × Request)
requests =
    (an_administrator, on_document (to_rename "d1" "b.txt"))
    ∷ (a_coordinator, on_document (to_edit "d1" (some "Acta 2") none none "typo"))
    ∷ (a_teacher, on_document (to_delete "d1" "curious"))
    ∷ (an_administrator, on_document (to_delete "d1" "old"))
    ∷ (an_administrator, on_document (to_restore "d1"))
    ∷ []

a_world_verified : verify_audit_chain a_world.db.state ≡ ok tt
unfolding verify_audit_chain verify_from
a_world_verified = refl

serve_all-Verified_example : verify_audit_chain (serve_all requests a_world).db.state ≡ ok tt
serve_all-Verified_example = serve_all-Verified requests a_world a_world_verified

serve_all-append_example :
    (added : List AuditEntry) × ((serve_all requests a_world).db.state.audit
      ≡ a_world.db.state.audit ++ added)
serve_all-append_example = serve_all-append requests a_world

serve_all-vault_ids_example :
    Perm (vault_ids (serve_all requests a_world).db.state) (vault_ids a_world.db.state)
serve_all-vault_ids_example = serve_all-vault_ids requests a_world

serve_document_denied_example :
    serve_document a_teacher (to_delete "d1" "curious") a_world
    ≡ (err (denied "enviar a papelera"), a_world)
serve_document_denied_example =
    serve_document_denied a_teacher (to_delete "d1" "curious") a_world refl

serve_read_only_example :
    (serve an_administrator (on_document (to_rename "d1" "b.txt")) locked_world).1 ≡ locked_world
serve_read_only_example =
    serve_read_only an_administrator (on_document (to_rename "d1" "b.txt")) locked_world refl

abbrev a_new_rel : String
a_new_rel = renamed_path (trim " b.txt") a_document.rel_path

free_place : is_taken (abs_path "/v" a_new_rel) a_world.files ≡ false
unfolding renamed_path set_last trim split_on abs_path is_whitespace join is_taken lookup
    starts_with ends_with
free_place = refl

-- The directories above a file are taken, and so is a name for a directory.
taken_places :
    (is_taken "/v/ana/Tesis" a_world.files ≡ true) × (is_taken "/v/ana/.." a_world.files ≡ true)
unfolding is_taken lookup starts_with ends_with
taken_places = (refl, refl)

rename_effect_example :
    (files : List (String × File)) × (rename an_administrator "d1" " b.txt" a_world ≡ (
      ok (new_doc an_administrator "d1" " b.txt" a_world a_document a_file),
      flushed
          (renamed_state an_administrator "d1" " b.txt" a_world a_document a_file)
          (with_files a_world files),
    ))
    × (lookup (abs_path "/v" a_new_rel) files ≡ some (sealed a_file))
    × (lookup (abs_path "/v" "ana/Tesis/a.txt") files ≡ none)
    × ((p : String)
        → p ≢ abs_path "/v" "ana/Tesis/a.txt"
        → p ≢ abs_path "/v" a_new_rel
        → lookup p files ≡ lookup p a_world.files)
unfolding can_rename_or_move is_bad_name renamed_path set_last trim find_by_vault_id split_on
    abs_path lookup is_whitespace join
rename_effect_example =
    rename_effect an_administrator "d1" " b.txt" a_world a_document a_file refl refl refl refl refl
      refl refl free_place

abbrev version_of : String → ℕ → DocumentVersion
version_of id n = record {
  vault_id = id;
  version = n;
  sha256 = "6";
  rel_path = "r";
  meta = a_meta;
  created_by = "pia";
  created_at = "t";
  note = "";
}
