-- ===== src/Admin/Sealed.antt =====
-- Properties of the database that the way into custody keeps: crates/vault-admin/src/lib.rs.
use ubod.Base.{ℕ, String, Bool, Option, none, some, List, ◌≡◌, refl, subst, arith}
use ubod.Base.Exec.{ok, modify, pure, ◌>>◌}
use ubod.Base.Exec.Keeps.{
  Keeps, Keeps-read, Keeps-map_err, Leads, Leads-after, Leads-raise, Leads-if, Leads-before,
  Keeps-bind, keeps_rules,
}
use ubod.Base.Foreign.{Foreign}
use ubod.Core.Records.{Document, IntegrityStatus}
use ubod.Fs.World.{World, on_state, fresh_id, log}
use ubod.Fs.Files.{
  FsError, prepare_parent, move_staged, install_sealed, install_staged, remove_file,
}
use ubod.Fs.Kept.{OnState, Keeps-same, Keeps-on_state, Keeps-remove_file, world_rules}
use ubod.Store.Documents.{add_document, find_by_sha256, set_text}
use ubod.Store.State.{DbState}
use ubod.Admin.{AdminError}
use ubod.Admin.Kept.{IsKept, Keeps-logged}
use ubod.Admin.Sealing.{
  SealSource, from_bytes, staged_file, SealRequest, SealOutcome, sealed, Outside, Authority,
  source_content, install, with_stamp, index_document, keep_sealed, seal_at, seal_new, seal_once,
  seal_document,
}

-- What a new document keeps whose content no document of the active index has.
pub record IsCustody ⦃f : Foreign⦄ (P : DbState → Type 0) : Type 0 where
  pub kept : IsKept P
  pub indexed : (id text : String) (st : DbState) → P st → P (set_text id text st)
  pub added :
      (doc : Document) (st : DbState)
      → find_by_sha256 doc.sha256 st ≡ none
      → P st
      → P (add_document doc st)

module _ {P : DbState → Type 0} where
  Keeps-fresh_id : ⦃f : Foreign⦄ {E : Type 0} → Keeps {E = E} (OnState P) fresh_id
  unfolding fresh_id
  Keeps-fresh_id = Keeps-same _ (λ w. refl)

  Keeps-source_content : (source : SealSource) → Keeps (OnState P) (source_content source)
  unfolding source_content
  Keeps-source_content (from_bytes content) = search keeps_rules
  Keeps-source_content (staged_file path) = search world_rules

  Keeps-prepare_parent : (rel : String) → Keeps (OnState P) (prepare_parent rel)
  unfolding prepare_parent
  Keeps-prepare_parent rel = search world_rules

  Keeps-copied :
      (staged : String)
      → Keeps {E = FsError} (OnState P) (λ w. (ok tt, (remove_file FsError.io staged w).1))
  Keeps-copied staged = record { at = λ w h. (Keeps-remove_file {P = P} FsError.io staged).at w h }

  Keeps-move_staged :
      (other : Bool) (staged dest : String) → Keeps (OnState P) (move_staged other staged dest)
  unfolding move_staged
  Keeps-move_staged other staged dest = search (world_rules, Keeps-copied) depth 12

  Keeps-install_sealed :
      (rel : String) (content : List ℕ) → Keeps (OnState P) (install_sealed rel content)
  unfolding install_sealed
  Keeps-install_sealed rel content = search (world_rules, Keeps-prepare_parent) depth 14

  Keeps-install_staged :
      (other : Bool) (rel staged : String) → Keeps (OnState P) (install_staged other rel staged)
  unfolding install_staged
  Keeps-install_staged other rel staged =
      search (world_rules, Keeps-prepare_parent, Keeps-move_staged) depth 14

  Keeps-install :
      ⦃f : Foreign⦄ (out : Outside) (source : SealSource) (rel : String)
      → Keeps (OnState P) (install out source rel)
  unfolding install
  Keeps-install out (from_bytes content) rel = Keeps-install_sealed rel content
  Keeps-install out (staged_file path) rel = Keeps-install_staged out.other_device rel path

module _ ⦃f : Foreign⦄ (out : Outside) where
  with_stamp-sha256 :
      (tsa : Option Authority) (doc : Document) → (with_stamp out tsa doc).sha256 ≡ doc.sha256
  with_stamp-sha256 none doc = refl
  with_stamp-sha256 (some tsa) doc = ground arith

module _ ⦃f : Foreign⦄ {P : DbState → Type 0} (k : IsCustody P) (out : Outside) where
  -- Before the document is there.
  abbrev Unseen : String → World → Type 0
  Unseen sha256 = OnState (λ st. P st × (find_by_sha256 sha256 st ≡ none))

  Keeps-indexed :
      (sha256 id text : String)
      → Keeps {E = AdminError} (Unseen sha256) (on_state (set_text id text))
  unfolding find_by_sha256 set_text
  Keeps-indexed sha256 id text = Keeps-on_state _ (λ st h. (k.indexed id text st h.0, h.1))

  Keeps-index_document :
      (sha256 : String) (doc : Document) → Keeps (Unseen sha256) (index_document out doc)
  unfolding index_document
  Keeps-index_document sha256 doc = search (keeps_rules, Keeps-indexed)

  Leads-add :
      (doc : Document)
      → Leads {E = AdminError} (Unseen doc.sha256) (OnState P) (on_state (add_document doc))
  unfolding on_state modify
  Leads-add doc = record { at = λ w h. record { kept = k.added doc w.db.state h.kept.1 h.kept.0 } }

  weaker : (sha256 : String) (w : World) → Unseen sha256 w → OnState P w
  weaker sha256 w h = record { kept = h.kept.0 }

  Keeps-entered :
      (a b c d : String) (outcome : SealOutcome)
      → Keeps {E = AdminError} (OnState P) (log a b c d >> pure outcome)
  Keeps-entered a b c d outcome = search (keeps_rules, Keeps-logged k.kept.apart)

  Leads-keep_sealed :
      (req : SealRequest) (doc : Document)
      → Leads (Unseen doc.sha256) (OnState P) (keep_sealed out req doc)
  unfolding keep_sealed
  Leads-keep_sealed req doc =
      Leads-after _ _ (Keeps-index_document doc.sha256 doc)
        (λ _. Leads-before _ _ (Leads-add doc) (λ _. Keeps-entered _ _ _ _ (sealed doc)))
        (weaker doc.sha256)

  Leads-stamped :
      (tsa : Option Authority) (req : SealRequest) (doc : Document)
      → Leads
          (Unseen doc.sha256)
          (OnState P)
          (keep_sealed out req (record (with_stamp out tsa doc) { integrity = IntegrityStatus.ok }))
  Leads-stamped tsa req doc =
      subst
        (λ sha256. Leads (Unseen sha256) (OnState P) (
          keep_sealed out req (record (with_stamp out tsa doc) { integrity = IntegrityStatus.ok })))
        (with_stamp-sha256 out tsa doc)
        (Leads-keep_sealed req (record (with_stamp out tsa doc) { integrity = IntegrityStatus.ok }))

  Leads-seal_at :
      (tsa : Option Authority) (req : SealRequest) (doc : Document)
      → Leads (Unseen doc.sha256) (OnState P) (seal_at out tsa req doc)
  unfolding seal_at
  Leads-seal_at tsa req doc =
      Leads-after _ _ (search keeps_rules)
        (λ taken. Leads-if taken _ _ (Leads-raise _ (weaker doc.sha256)) (
          Leads-after _ _ (Keeps-map_err _ _ (Keeps-install out req.source doc.rel_path))
            (λ _. Leads-stamped tsa req doc) (weaker doc.sha256)))
        (weaker doc.sha256)

  Leads-seal_new :
      (tsa : Option Authority) (req : SealRequest) (content : List ℕ × ℕ)
      → Leads (Unseen (f.sha256 content.0)) (OnState P) (seal_new out tsa req content)
  unfolding seal_new
  Leads-seal_new tsa req content =
      Leads-after _ _ Keeps-fresh_id (λ id. Leads-seal_at tsa req _) (weaker (f.sha256 content.0))

  seal_once-kept :
      (tsa : Option Authority) (req : SealRequest) (content : List ℕ × ℕ) (w : World)
      (found : Option Document)
      → find_by_sha256 (f.sha256 content.0) w.db.state ≡ found
      → OnState P w
      → OnState P (seal_once out tsa req content found w).1
  unfolding seal_once pure
  seal_once-kept tsa req content w none none_there h =
      (Leads-seal_new tsa req content).at w (record { kept = (h.kept, none_there) })
  seal_once-kept tsa req content w (some existing) there h = h

  pub Keeps-seal_document :
      (tsa : Option Authority) (req : SealRequest) → Keeps (OnState P) (seal_document out tsa req)
  unfolding seal_document
  Keeps-seal_document tsa req =
      Keeps-bind _ _ (Keeps-source_content req.source)
        (λ content. Keeps-read _ _ (λ w h. seal_once-kept tsa req content w _ refl h))
