-- ===== src/Admin/Grace.antt =====
-- A destruction with a grace period, from its order to its execution: crates/vault-admin/src/lib.rs.
use text.Mathlib.TextPositions.{eq_refl}
use ubod.Base.{
  ℕ, ◌+◌, ◌<◌, ◌≤◌, ltb, String, append, true, false, none, some, [], ◌∷◌, ◌≡◌, refl, ap, ◌∙◌,
  arith,
}
use ubod.Base.Exec.{Exec, ok, pure, gets, modify, ◌>>=◌, ◌>>◌}
use ubod.Base.Exec.Runs.{runs, then_unit}
use ubod.Base.Foreign.{Foreign}
use ubod.Base.Text.{decimal}
use ubod.Core.Records.{Document}
use ubod.Fs.World.{log, insert, without}
use ubod.Store.Audit.{append_audit}
use ubod.Store.Documents.{find_by_vault_id}
use ubod.Admin.{AdminError, AdminService}
use ubod.Admin.Control.{noted, note_calm}
use ubod.Admin.Destruction.{
  destroy, schedule, plan, forget, execute_destruction, due, destroy_each, process_due_destructions,
}
use ubod.Admin.Effect.{let_in, destroy_ok}
use ubod.Admin.Lockout.{at_time}
use ubod.Admin.Pins.{is_destruction_pin}

positive : (n : ℕ) → 0 < n → ltb 0 n ≡ true
positive n h = ground (arith, h)

forget_alone : (id : String) (t : ℕ) → without id (insert id t []) ≡ []
unfolding insert without
forget_alone id t = rw (eq_refl id) refl

abbrev pub one_done : Exec AdminService AdminError ℕ
one_done = pure 1

module _ ⦃f : Foreign⦄ (noise : ℕ → ℕ) (actor : String) where
  alone : (id : String) (t : ℕ) → insert id t [] ≡ (id, t) ∷ []
  unfolding insert without
  alone id t = refl

  -- The due destructions where one is planned.
  due_early :
      (s : AdminService) (id : String) (t : ℕ)
      → s.vault.now < t
      → due s.vault.now ((id, t) ∷ []) s ≡ []
  unfolding due
  due_early s id t h = ground (arith, h)

  due_late :
      (s : AdminService) (id : String) (t : ℕ) (doc : Document)
      → t ≤ s.vault.now
      → find_by_vault_id id s.vault.db.state ≡ some doc
      → due s.vault.now ((id, t) ∷ []) s ≡ (id, doc) ∷ []
  unfolding due
  due_late s id t doc h found = ground (arith, h, found)

  process_early :
      (s : AdminService) (id : String) (t : ℕ)
      → s.pending_destructions ≡ (id, t) ∷ []
      → s.vault.now < t
      → process_due_destructions noise actor s ≡ (ok 0, s)
  unfolding process_due_destructions gets destroy_each pure
  process_early s id t planned h =
      runs _ _
        (ap (λ ds. (ok ds, s)) (ap (λ ps. due s.vault.now ps s) planned ∙ due_early s id t h))
        (runs _ _ refl refl)

  process_late :
      (s : AdminService) (id : String) (t : ℕ) (doc : Document)
      → s.pending_destructions ≡ (id, t) ∷ []
      → t ≤ s.vault.now
      → find_by_vault_id id s.vault.db.state ≡ some doc
      → process_due_destructions noise actor s
        ≡ (destroy_each noise actor ((id, doc) ∷ []) >> one_done) s
  unfolding process_due_destructions gets
  process_late s id t doc planned h found =
      runs _ _
        (ap (λ ds. (ok ds, s))
          (ap (λ ps. due s.vault.now ps s) planned ∙ due_late s id t doc h found))
        refl

module _ ⦃f : Foreign⦄ (s : AdminService) (hash pin destruction_pin : String)
    (set : s.vault.db.state.admin_pin_hash ≡ some hash) (free : s.pin_lockout.locked_until ≡ none)
    (right : f.argon_verify pin hash ≡ true)
    (second : is_destruction_pin destruction_pin s.vault.db.state ≡ true)
    (calm : s.vault.faults ≡ []) (writable : s.vault.db.read_only ≡ false) (noise : ℕ → ℕ)
    (id why actor : String) (doc : Document)
    (indexed : find_by_vault_id id s.vault.db.state ≡ some doc) where
  abbrev entered : AdminService
  entered = let_in s hash pin destruction_pin set free right second

  abbrev exec_at : ℕ
  exec_at = s.vault.now + s.vault.db.state.settings.destruction_grace_secs

  abbrev planned : AdminService
  planned =
      noted actor "destroy_scheduled" doc.sha256
        (append "vault_id="
          (append id (append " ejecutar_en=" (append (decimal exec_at) (append " motivo=" why)))))
        (record entered { pending_destructions = insert id exec_at entered.pending_destructions })

  schedule_calm : schedule noise id doc exec_at why actor entered ≡ (ok tt, planned)
  unfolding schedule plan modify
  schedule_calm = runs _ _ refl (note_calm _ _ _ _ _ calm writable)

  still_indexed : (t : ℕ) → find_by_vault_id id (at_time t planned).vault.db.state ≡ some doc
  unfolding find_by_vault_id append_audit log modify
  still_indexed t = indexed

  executes :
      (s' : AdminService) (by : String)
      → s'.pending_destructions ≡ insert id exec_at []
      → (destroy_each noise by ((id, doc) ∷ []) >> one_done) s'
        ≡ (execute_destruction noise doc "ventana de gracia expirada" by >> one_done)
            (record s' { pending_destructions = [] })
  unfolding destroy_each forget modify ◌>>=◌
  executes s' by h =
      then_unit one_done (execute_destruction noise doc "ventana de gracia expirada" by)
        (record s' { pending_destructions = without id s'.pending_destructions })
      ∙ ap
          (λ ps.
            (execute_destruction noise doc "ventana de gracia expirada" by >> one_done)
              (record s' { pending_destructions = ps }))
          (ap (without id) h ∙ forget_alone id exec_at)

  -- With both PINs, on a system without faults, and with a grace period, the destruction of a document
  -- is only planned: every file and every document of the index stays. Where no other destruction is
  -- planned, a look at the due destructions does nothing before the grace period is over, and from
  -- then on it executes this one.
  pub destroy_grace :
      0 < s.vault.db.state.settings.destruction_grace_secs
      → s.pending_destructions ≡ []
      → (s' : AdminService) × (destroy noise id pin destruction_pin why actor s ≡ (ok tt, s'))
        × (s'.vault.files ≡ s.vault.files)
        × (s'.vault.db.state.documents ≡ s.vault.db.state.documents)
        × ((t : ℕ) (by : String)
            → t < s.vault.now + s.vault.db.state.settings.destruction_grace_secs
            → process_due_destructions noise by (at_time t s') ≡ (ok 0, at_time t s'))
        × ((t : ℕ) (by : String)
            → s.vault.now + s.vault.db.state.settings.destruction_grace_secs ≤ t
            → process_due_destructions noise by (at_time t s')
              ≡ (execute_destruction noise doc "ventana de gracia expirada" by >> one_done)
                  (record (at_time t s') { pending_destructions = [] }))
  unfolding log modify append_audit
  destroy_grace grace none_planned =
      let one : planned.pending_destructions ≡ insert id exec_at [] =
        ap (insert id exec_at) none_planned in
      let one_at = one ∙ alone noise actor id exec_at in
      (
        planned,
        destroy_ok s hash pin destruction_pin set free right second noise id why actor doc indexed
            ∙ rw (positive s.vault.db.state.settings.destruction_grace_secs grace) schedule_calm,
        refl,
        refl,
        (λ t by h. process_early noise by (at_time t planned) id exec_at one_at h),
        (λ t by h.
            process_late noise by (at_time t planned) id exec_at doc one_at h (still_indexed t)
            ∙ executes (at_time t planned) by one),
      )
