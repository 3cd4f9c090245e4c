-- ===== src/Daemon/Ingest.antt =====
-- bins/vaultd/src/main.rs: `ingest_to_staging`, the way of a file from the channel to the queue.
use Prim.Native.Char.{code}
use Prim.Native.String.{[], ◌∷◌}
use mathlib.Core.List.{List}
use ubod.Base.{
  ℕ, String, append, ◌==◌, nat_eq, string_eq, if◌then◌else◌, Option, none, some, length,
}
use ubod.Base.Exec.{Exec, err, pure, raise, gets, or_raise, map_err, ◌>>=◌, ◌>>◌}
use ubod.Base.Foreign.{Foreign, to_lowercase}
use ubod.Core.Category.{Category, from_dir_name}
use ubod.Core.Envelope.{TransferEnvelope, TransferPayload, protocol_version}
use ubod.Core.Records.{Submission, AdmissionState}
use ubod.Fs.World.{World, on_state, now_text, log, flush, fresh_id}
use ubod.Fs.Files.{read_file, remove_file, rename_file}
use ubod.Fs.Paths.{abs_path}
use ubod.Index.Rules.{extension_of}
use ubod.Store.Submissions.{add_submission}
use ubod.Sync.{Reply, queued}

-- `parent()`: what stands before the last slash.
unfoldable pub parent : String → Option String
parent [] = none
parent (c ∷ s) =
    let above = parent s in
    elim above [ some r ↦ some (c ∷ r) | none ↦ if code c == b'/' then some [] else none ]

-- The same folder, another name.
unfoldable pub beside : String → String → String
beside path name = elim (parent path) [ none ↦ name | some dir ↦ abs_path dir name ]

-- The file is not the one that was declared: it goes, and an error of its removal is not looked at.
unfoldable pub refuse : {A : Type 0} → String → String → Exec World String A
refuse path message w = (err message, (remove_file message path w).1)

abbrev pub title_of : TransferPayload → String
title_of p = if p.title == "" then p.file_name else p.title

module _ ⦃f : Foreign⦄ where
  -- `id` and the two times are drawn by the caller.
  abbrev pub submission_of :
      TransferPayload → Category → String → String → String → String → List ℕ → Submission
  submission_of p category id registered received device_id content = record {
    submission_id = id;
    device_id = device_id;
    meta = record {
      title = title_of p;
      category = category;
      author = p.author;
      id_number = p.id_number;
      department = p.department;
      registered_at = registered;
      academic_year = p.academic_year;
      file_name = p.file_name;
      extension = to_lowercase (extension_of p.file_name);
    };
    sha256 = f.sha256 content;
    blake3 = f.blake3 content;
    size_bytes = length content;
    staging_path = append (f.sha256 content) ".incoming";
    received_at = received;
    state = AdmissionState.pending;
  }

  unfoldable pub queue : String → TransferPayload → Submission → Exec World String Reply
  queue device_id p sub = do
    on_state (add_submission sub)
    log device_id "upload_received" p.sha256
        (append "archivo=" (append p.file_name (append " categoría=" p.file_category)))
    map_err (λ _. "bd") flush
    pure (queued sub)

  -- From the file that is the declared one.
  unfoldable pub accept : String → String → TransferPayload → List ℕ → Exec World String Reply
  accept device_id path p content = do
    rename_file "staging rename" path (beside path (append (f.sha256 content) ".incoming"))
    category ←
        or_raise (from_dir_name p.file_category) (append "categoría desconocida: " p.file_category)
    id ← fresh_id
    now ← gets now_text
    queue device_id p (submission_of p category id now now device_id content)

  unfoldable pub check_content :
      String → String → TransferPayload → List ℕ → Exec World String Reply
  check_content device_id path p content =
      if f.sha256 content == p.sha256
      then (if length content == p.file_size_bytes
          then accept device_id path p content
          else refuse path "tamaño no coincide con el envelope")
      else refuse path "hash SHA-256 no coincide con el envelope"

  unfoldable pub read_declared : String → String → TransferEnvelope → Exec World String Reply
  read_declared device_id path envelope =
      if envelope.header.protocol_version == protocol_version
      then (do
        content ← read_file "staging" path
        check_content device_id path envelope.payload content)
      else raise (append "versión de protocolo no soportada: " envelope.header.protocol_version)

  unfoldable pub ingest_to_staging :
      (List ℕ → Option TransferEnvelope) → String → List ℕ → String → Exec World String Reply
  ingest_to_staging read_envelope device_id line path = do
    envelope ← or_raise (read_envelope line) "envelope inválido"
    read_declared device_id path envelope
