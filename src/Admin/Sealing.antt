-- ===== src/Admin/Sealing.antt =====
-- crates/vault-admin/src/lib.rs: `seal_document`, the one way into custody, and `admit`. The authority for
-- time stamps and the programs that take the text out of a file are an interface.
use ubod.Base.{
  ℕ, String, append, Bool, nat_eq, string_eq, if◌then◌else◌, Option, none, some, List, length,
}
use ubod.Base.Exec.{Exec, Result, ok, err, pure, raise, gets, map_err, ◌>>=◌, ◌>>◌}
use ubod.Base.Foreign.{Foreign}
use ubod.Core.Category.{category_eq}
use ubod.Core.Records.{Document, DocumentMeta, IntegrityStatus, admission_eq}
use ubod.Crypto.Tsa.{TsaError}
use ubod.Fs.World.{World, File, lookup, on_state, log, fresh_id}
use ubod.Fs.Files.{FsError, read_file, metadata, is_taken, install_sealed, install_staged}
use ubod.Fs.Paths.{abs_path, rel_path_for}
use ubod.Store.Documents.{add_document, find_by_sha256, set_text}
use ubod.Admin.{AdminError, io, collision}

pub data SealSource : Type 0 where
  from_bytes : List ℕ → SealSource
  staged_file : String → SealSource

pub record SealRequest : Type 0 where
  pub source : SealSource
  pub meta : DocumentMeta
  pub origin_device : Option String
  pub actor : String
  pub audit_action : String

pub data SealOutcome : Type 0 where
  sealed : Document → SealOutcome
  duplicate : String → String → String → SealOutcome

-- `stamp_document` of `LocalTsa`
abbrev pub Authority : Type 0
Authority = String → Result TsaError (String × String)

-- The authority, `extract_text` of a file that can be read, and whether staging is on
-- another file system.
pub record Outside : Type 0 where
  pub stamp_document : Authority
  pub extract_text : String → List ℕ → String
  pub other_device : Bool

-- The content and its size, which is asked for apart.
unfoldable pub source_content : SealSource → Exec World AdminError (List ℕ × ℕ)
source_content (from_bytes content) = pure (content, length content)
source_content (staged_file path) = do
  content ← read_file io path
  file ← metadata io path
  pure (content, length file.bytes)

abbrev text_of : (List ℕ → String) → Option File → String
text_of extract none = ""
text_of extract (some file) = extract file.bytes

module _ ⦃f : Foreign⦄ (out : Outside) where
  unfoldable pub install : SealSource → String → Exec World FsError String
  install (from_bytes content) rel = install_sealed rel content
  install (staged_file path) rel = install_staged out.other_device rel path

  -- Without the authority a document is sealed without a token.
  abbrev pub with_stamp : Option Authority → Document → Document
  with_stamp none doc = doc
  with_stamp (some tsa) doc = elim (tsa doc.sha256) [
    | err e ↦ doc
    | ok (token, when) ↦ record doc { rfc3161_token = some token; rfc3161_time = some when }
  ]

  unfoldable pub index_document : Document → Exec World AdminError (Unit {0})
  index_document doc = do
    text ← gets (λ w.
        let path = abs_path w.root doc.rel_path in
        text_of (out.extract_text path) (lookup path w.files))
    on_state (set_text doc.vault_id text)

  -- What follows the installation.
  unfoldable pub keep_sealed : SealRequest → Document → Exec World AdminError SealOutcome
  keep_sealed req doc = do
    index_document doc
    on_state (add_document doc)
    log req.actor req.audit_action doc.sha256
        (append "vault_id=" (append doc.vault_id (append " ruta=" doc.rel_path)))
    pure (sealed doc)

  unfoldable pub seal_at :
      Option Authority → SealRequest → Document → Exec World AdminError SealOutcome
  seal_at tsa req doc = do
    taken ← gets (λ w. is_taken (abs_path w.root doc.rel_path) w.files)
    if taken then raise (collision doc.rel_path) else do
      map_err AdminError.fs (install req.source doc.rel_path)
      keep_sealed req (record (with_stamp tsa doc) { integrity = IntegrityStatus.ok })

  abbrev pub unplaced : SealRequest → String → List ℕ × ℕ → Document
  unplaced req id (content, size) = record {
    vault_id = id;
    sha256 = f.sha256 content;
    blake3 = f.blake3 content;
    size_bytes = size;
    meta = req.meta;
    rel_path = "";
    rfc3161_token = none;
    rfc3161_time = none;
    integrity = IntegrityStatus.pending;
    origin_device = req.origin_device;
  }

  unfoldable pub seal_new :
      Option Authority → SealRequest → List ℕ × ℕ → Exec World AdminError SealOutcome
  seal_new tsa req content = do
    id ← fresh_id
    seal_at tsa req (record (unplaced req id content) {
      rel_path = rel_path_for req.meta.author (unplaced req id content);
    })

  unfoldable pub seal_once :
      Option Authority
      → SealRequest
      → List ℕ × ℕ
      → Option Document
      → Exec World AdminError SealOutcome
  seal_once tsa req content none = seal_new tsa req content
  seal_once tsa req content (some existing) =
      pure (duplicate existing.vault_id (f.sha256 content.0) (f.blake3 content.0))

  unfoldable pub seal_document : Option Authority → SealRequest → Exec World AdminError SealOutcome
  seal_document tsa req = do
    content ← source_content req.source
    found ← gets (λ w. find_by_sha256 (f.sha256 content.0) w.db.state)
    seal_once tsa req content found
