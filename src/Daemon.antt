-- ===== src/Daemon.antt =====
-- bins/vaultd/src/main.rs: what the daemon registers with the channel. The package for JSON and the
-- authority for certificates are an interface.
pub mod Ingest
pub mod Kept
pub mod Untouched
pub mod Queued
use ubod.Base.{ℕ, String, List, map, Option}
use ubod.Base.Exec.{Exec}
use ubod.Base.Foreign.{Foreign}
use ubod.Core.Envelope.{TransferEnvelope}
use ubod.Admin.{AdminService}
use ubod.Admin.Devices.{pair_device}
use ubod.Sync.{Reply}
use ubod.Sync.Server.{Callbacks}
use ubod.Daemon.Ingest.{ingest_to_staging}

pub record Packages : Type 0 where
  pub read_envelope : List ℕ → Option TransferEnvelope
  pub read_pairing : List ℕ → Option (String × String)
  pub issue : String → Option (String × String × String)

module _ ⦃f : Foreign⦄ (p : Packages) where
  abbrev pub on_document : String → List ℕ → String → Exec AdminService String Reply
  on_document device_id envelope path s =
      let (r, w) = ingest_to_staging p.read_envelope device_id envelope path s.vault in
      (r, record s { vault = w })

  -- An error of `pair_device` is not looked at.
  abbrev pub on_paired : String → String → AdminService → AdminService
  on_paired device_id fingerprint s = (pair_device device_id fingerprint "vaultd" s).1

  -- The functions that `start_sync` gives to the channel.
  abbrev pub sync_callbacks : Callbacks
  sync_callbacks = record {
    hashes = λ s. map (λ d. d.sha256) s.vault.db.state.documents;
    on_document = on_document;
    on_paired = on_paired;
    read_pairing = p.read_pairing;
    issue = p.issue;
  }
