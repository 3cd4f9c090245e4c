-- ===== src/Examples.antt =====
-- A small vault, and concrete functions in place of the packages that the program uses.
mod Core
mod Store
mod Fs
mod Roles
mod Audit
mod Admin
mod Admission
mod Destruction
mod Index
mod Sync
mod Webui
mod Crypto
use Prim.Native.Char.{Char}
use Prim.Native.String.{[], ◌∷◌}
use ubod.Base.{
  ℕ, ◌+◌, String, append, Bool, true, false, none, some, List, ◌==◌, string_eq, if◌then◌else◌,
}
use ubod.Base
use ubod.Base.Foreign.{Foreign}
use ubod.Base.Text.{decimal}
use ubod.Core.Category.{tesis}
use ubod.Core.Records.{Document, DocumentMeta, IntegrityStatus}
use ubod.Core.Role.{Role, docente, administrativo, coordinacion}
use ubod.Fs.World.{World, File}
use ubod.Roles.{Session}
use ubod.Store.State.{DbState, empty_state}

abbrev total : List ℕ → ℕ
total Base.[] = 0
total (Base.◌∷◌ b bs) = b + total bs

-- Toy digests: the sum of the bytes.
instance abbrev pub toy : Foreign
toy = record {
  sha256 = λ bytes. decimal (total bytes);
  blake3 = λ bytes. append "b" (decimal (total bytes));
  argon_hash = λ salt pin. append (decimal salt) pin;
  argon_verify = λ pin hash. append "0" pin == hash;
  unicode_alphanumeric = λ c. true;
  unicode_lowercase = λ c. c ∷ [];
  random_bytes = λ n. Base.◌∷◌ n Base.[];
  milliseconds = λ n. 0;
}

abbrev pub a_meta : DocumentMeta
a_meta = record {
  title = "Acta";
  category = tesis;
  author = "ana";
  id_number = none;
  department = "Historia";
  registered_at = "2026-01-01T00:00:00Z";
  academic_year = some 2026;
  file_name = "a.txt";
  extension = "txt";
}

abbrev pub a_document : Document
a_document = record {
  vault_id = "d1";
  sha256 = "6";
  blake3 = "b6";
  size_bytes = 3;
  meta = a_meta;
  rel_path = "ana/Tesis/a.txt";
  rfc3161_token = none;
  rfc3161_time = none;
  integrity = IntegrityStatus.ok;
  origin_device = none;
}

abbrev pub a_file : File
a_file = record {
  bytes = Base.◌∷◌ 1 (Base.◌∷◌ 2 (Base.◌∷◌ 3 Base.[]));
  mode = 288;
  immutable = true;
}

abbrev pub a_state : DbState
a_state = record empty_state { documents = Base.◌∷◌ a_document Base.[] }

abbrev pub a_world : World
a_world = record {
  db = record { state = a_state; read_only = false; saved = none };
  root = "/v";
  files = Base.◌∷◌ ("/v/ana/Tesis/a.txt", a_file) Base.[];
  faults = Base.[];
  now = 1790190827;
  drawn = 0;
}

abbrev pub locked_world : World
locked_world = record a_world { db = record a_world.db { read_only = true } }

abbrev session_of : String → Role → Session
session_of name role = record { username = name; display_name = name; role = role }

abbrev pub a_teacher : Session
a_teacher = session_of "luis" docente

abbrev pub an_administrator : Session
an_administrator = session_of "eva" administrativo

abbrev pub a_coordinator : Session
a_coordinator = session_of "pia" coordinacion
