-- ===== src/Core/Records.antt =====
-- crates/vault-core/src/lib.rs: documents, users, versions, submissions and the transfer envelope.
use ubod.Base.{ℕ, String, Bool, true, Option, ◌≡◌, ◌↔◌, arith, HasEq, ◌==◌, nat_eq}
use ubod.Core.Category.{Category}
use ubod.Core.Role.{Role}

pub data IntegrityStatus : Type 0 where
  ok pending tampered : IntegrityStatus

abbrev status_index : IntegrityStatus → ℕ
status_index ok = 0
status_index pending = 1
status_index tampered = 2

abbrev pub status_beq : IntegrityStatus → IntegrityStatus → Bool
status_beq a b = status_index a == status_index b

pub status_beq_iff : (a b : IntegrityStatus) → (status_beq a b ≡ true) ↔ (a ≡ b)
status_beq_iff a b = ground arith

instance abbrev pub status_eq : HasEq IntegrityStatus
status_eq = record { equal = status_beq; equal_iff = status_beq_iff }

pub record DocumentMeta : Type 0 where
  pub title : String
  pub category : Category
  pub author : String
  pub id_number : Option String
  pub department : String
  pub registered_at : String
  pub academic_year : Option ℕ
  pub file_name : String
  pub extension : String

pub record User : Type 0 where
  pub username : String
  pub display_name : String
  pub role : Role
  pub pin_hash : String
  pub created_at : String
  pub last_login : Option String
  pub enabled : Bool

pub record Document : Type 0 where
  pub vault_id : String
  pub sha256 : String
  pub blake3 : String
  pub size_bytes : ℕ
  pub meta : DocumentMeta
  pub rel_path : String
  pub rfc3161_token : Option String
  pub rfc3161_time : Option String
  pub integrity : IntegrityStatus
  pub origin_device : Option String

pub record TrashedDocument : Type 0 where
  pub document : Document
  pub trashed_by : String
  pub trashed_at : String
  pub reason : String

pub record DocumentVersion : Type 0 where
  pub vault_id : String
  pub version : ℕ
  pub sha256 : String
  pub rel_path : String
  pub meta : DocumentMeta
  pub created_by : String
  pub created_at : String
  pub note : String

pub data AdmissionState : Type 0 where
  pending admitted rejected : AdmissionState

abbrev admission_index : AdmissionState → ℕ
admission_index pending = 0
admission_index admitted = 1
admission_index rejected = 2

abbrev pub admission_beq : AdmissionState → AdmissionState → Bool
admission_beq a b = admission_index a == admission_index b

pub admission_beq_iff : (a b : AdmissionState) → (admission_beq a b ≡ true) ↔ (a ≡ b)
admission_beq_iff a b = ground arith

instance abbrev pub admission_eq : HasEq AdmissionState
admission_eq = record { equal = admission_beq; equal_iff = admission_beq_iff }

pub record Submission : Type 0 where
  pub submission_id : String
  pub device_id : String
  pub meta : DocumentMeta
  pub sha256 : String
  pub blake3 : String
  pub size_bytes : ℕ
  pub staging_path : String
  pub received_at : String
  pub state : AdmissionState

pub data SealStatus : Type 0 where
  sealed pending_admission rejected error : SealStatus

pub record SealAck : Type 0 where
  pub status : SealStatus
  pub vault_id : Option String
  pub sha256 : String
  pub blake3 : String
  pub rfc3161_time : Option String
  pub message : Option String
