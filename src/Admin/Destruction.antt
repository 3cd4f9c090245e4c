-- ===== src/Admin/Destruction.antt =====
-- crates/vault-admin/src/lib.rs: the supervised destruction of a document.
use ubod.Base.{ℕ, ◌+◌, String, append, ltb, if◌then◌else◌, none, some, List, [], ◌∷◌, length}
use ubod.Base.Exec.{Exec, pure, gets, modify, or_raise, ◌>>=◌, ◌>>◌}
use ubod.Base.Foreign.{Foreign}
use ubod.Base.Text.{decimal, as_bytes}
use ubod.Core.Records.{Document}
use ubod.Fs.World.{without, insert, on_state, call, now_text}
use ubod.Fs.Files.{exists, unseal_file, secure_wipe, seal_file, write_file}
use ubod.Fs.Paths.{abs_path}
use ubod.Store.Documents.{find_by_vault_id, remove_document}
use ubod.Admin.{AdminError, AdminService, document_not_found, io, store, fs, on_vault}
use ubod.Admin.Pins.{note, verify_admin_pin, verify_destruction_pin}

abbrev pub tombstone_text : Document → String → String → String → String
tombstone_text doc why when actor = append "DESTRUIDO\nvault_id=" (
    append doc.vault_id (
      append "\nsha256=" (
        append doc.sha256 (
          append "\nblake3=" (
            append doc.blake3 (
              append "\nruta=" (
                append doc.rel_path (
                  append "\nmotivo=" (
                    append why (
                      append "\ncuando="
                        (append when (append "\nactor=" (append actor "\n")))))))))))))

-- `tombstones().join(…)`
abbrev pub tombstone_path : String → Document → String
tombstone_path root doc =
    abs_path (abs_path root ".tombstones") (append "tombstone-" (append doc.vault_id ".txt"))

-- The map of the pending destructions.
unfoldable pub plan : String → ℕ → Exec AdminService AdminError (Unit {0})
plan id t = modify λ s. record s { pending_destructions = insert id t s.pending_destructions }

unfoldable pub forget : String → Exec AdminService AdminError (Unit {0})
forget id = modify λ s. record s { pending_destructions = without id s.pending_destructions }

-- The documents whose grace period is over, in the order of the map.
unfoldable pub due : ℕ → List (String × ℕ) → AdminService → List (String × Document)
due now [] s = []
due now ((id, t) ∷ pending) s =
    let rest = due now pending s in
    if ltb now t
    then rest
    else elim (find_by_vault_id id s.vault.db.state) [ none ↦ rest | some doc ↦ (id, doc) ∷ rest ]

module _ ⦃f : Foreign⦄ (noise : ℕ → ℕ) where
  -- Takes the seal off the file and wipes it, if it is there; `noise` are the random bytes of the wipe.
  unfoldable pub wipe_document : Document → Exec AdminService AdminError (Unit {0})
  wipe_document doc = do
    root ← gets (λ s. s.vault.root)
    there ← gets (λ s. exists (abs_path root doc.rel_path) s.vault)
    if there
        then (do
          on_vault fs (unseal_file (abs_path root doc.rel_path))
          on_vault fs (secure_wipe noise (abs_path root doc.rel_path)))
        else pure tt

  unfoldable pub execute_destruction :
      Document → String → String → Exec AdminService AdminError (Unit {0})
  execute_destruction doc why actor = do
    wipe_document doc
    root ← gets (λ s. s.vault.root)
    when ← gets (λ s. now_text s.vault)
    on_vault (λ e. e) (call io)
    on_vault (λ e. e)
        (write_file io (tombstone_path root doc) (as_bytes (tombstone_text doc why when actor)))
    on_vault fs (seal_file (tombstone_path root doc))
    on_vault store (on_state (λ st. (remove_document doc.vault_id st).1))
    note actor "destroy_executed" doc.sha256 (
        append "vault_id=" (
          append doc.vault_id
            (append " motivo=" (append why (append " tombstone=" (tombstone_path root doc))))))

  -- A destruction with a grace period.
  unfoldable pub schedule :
      String → Document → ℕ → String → String → Exec AdminService AdminError (Unit {0})
  schedule id doc exec_at why actor = do
    plan id exec_at
    note actor "destroy_scheduled" doc.sha256 (
        append "vault_id="
          (append id (append " ejecutar_en=" (append (decimal exec_at) (append " motivo=" why)))))

  unfoldable pub destroy :
      String → String → String → String → String → Exec AdminService AdminError (Unit {0})
  destroy id admin_pin destruction_pin why actor = do
    verify_admin_pin admin_pin
    verify_destruction_pin destruction_pin
    found ← gets (λ s. find_by_vault_id id s.vault.db.state)
    doc ← or_raise found (document_not_found id)
    grace ← gets (λ s. s.vault.db.state.settings.destruction_grace_secs)
    now ← gets (λ s. s.vault.now)
    if ltb 0 grace
        then schedule id doc (now + grace) why actor
        else execute_destruction doc why actor

  unfoldable pub destroy_each :
      String → List (String × Document) → Exec AdminService AdminError (Unit {0})
  destroy_each actor [] = pure tt
  destroy_each actor ((id, doc) ∷ docs) = do
    forget id
    execute_destruction doc "ventana de gracia expirada" actor
    destroy_each actor docs

  unfoldable pub process_due_destructions : String → Exec AdminService AdminError ℕ
  process_due_destructions actor = do
    docs ← gets (λ s. due s.vault.now s.pending_destructions s)
    destroy_each actor docs
    pure (length docs)
