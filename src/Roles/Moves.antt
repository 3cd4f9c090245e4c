-- ===== src/Roles/Moves.antt =====
-- crates/vault-roles/src/lib.rs: `rename` and `move_to_category`.
use ubod.Base.{
  String, append, Bool, not, ◌||◌, if◌then◌else◌, List, [], ◌∷◌, ◌==◌, nat_eq, string_eq,
}
use ubod.Base.Exec.{Exec, pure, gets, map_err, ◌>>=◌, ◌>>◌}
use ubod.Base.Foreign.{Foreign}
use ubod.Base.Text.{trim, has, split_on, join}
use ubod.Core.Category.{Category, category_eq}
use ubod.Core.Records.{Document}
use ubod.Core.Role.{can_rename_or_move}
use ubod.Fs.World.{World, on_state, log, attempt, call}
use ubod.Fs.Files.{is_taken, unseal_file, seal_file, rename_file}
use ubod.Fs.Paths.{abs_path, rel_path_for}
use ubod.Store.Documents.{update_document}
use ubod.Roles.{
  RoleError, denied, collision, fs, Session, guard, require_writable, the_document, save,
}

-- `parts[last] = name` and `join("/")`
unfoldable pub set_last : String → List String → List String
set_last name [] = []
set_last name (p ∷ []) = name ∷ []
set_last name (p ∷ q ∷ ps) = p ∷ set_last name (q ∷ ps)

unfoldable pub renamed_path : String → String → String
renamed_path name rel = join "/" (set_last name (split_on b'/' rel))

unfoldable pub is_bad_name : String → Bool
is_bad_name name = name == "" || has (λ c. c == b'/') name || has (λ c. c == 92) name

-- The check of the target and the physical move, which both operations make: the seal is taken off,
-- the file moved and sealed again, and the old directory removed if it is empty.
unfoldable pub relocate : String → String → Exec World RoleError (Unit {0})
relocate old_rel new_rel = do
  root ← gets (λ w. w.root)
  taken ← gets (λ w. is_taken (abs_path root new_rel) w.files)
  guard (not taken) (collision new_rel)
  map_err fs (unseal_file (abs_path root old_rel))
  call RoleError.io
  rename_file RoleError.io (abs_path root old_rel) (abs_path root new_rel)
  map_err fs (seal_file (abs_path root new_rel))
  attempt
  pure tt

abbrev pub moved_text : String → String → String → String
moved_text id old_rel new_rel =
    append "vault_id="
      (append id (append " «" (append old_rel (append "» → «" (append new_rel "»")))))

module _ ⦃f : Foreign⦄ where
  -- The index, the audit chain and the file of the database, after the move.
  unfoldable pub record_move :
      String → String → String → String → Document → Exec World RoleError Document
  record_move actor action id old_rel doc = do
    on_state (update_document doc)
    log actor action doc.sha256 (moved_text id old_rel doc.rel_path)
    save
    pure doc

  unfoldable pub rename : Session → String → String → Exec World RoleError Document
  rename s id new_name =
      let name = trim new_name in
      do
        guard (can_rename_or_move s.role) (denied "renombrar")
        require_writable
        guard (not (is_bad_name name)) (collision "nombre inválido")
        doc ← the_document id
        let new_rel = renamed_path name doc.rel_path
        if new_rel == doc.rel_path then pure doc else do
          relocate doc.rel_path new_rel
          record_move s.username "rename" id doc.rel_path
              (record doc { meta = record doc.meta { file_name = name }; rel_path = new_rel })

  abbrev recategorized : Category → Document → Document
  recategorized c doc = record doc { meta = record doc.meta { category = c } }

  unfoldable pub move_to_category : Session → String → Category → Exec World RoleError Document
  move_to_category s id c = do
    guard (can_rename_or_move s.role) (denied "mover")
    require_writable
    doc ← the_document id
    if doc.meta.category == c then pure doc else do
      let new_rel = rel_path_for doc.meta.author (recategorized c doc)
      if new_rel == doc.rel_path
          then (do on_state (update_document (recategorized c doc)); pure (recategorized c doc))
          else do
            relocate doc.rel_path new_rel
            record_move s.username "move" id doc.rel_path
                (record (recategorized c doc) { rel_path = new_rel })
