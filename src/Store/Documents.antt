-- ===== src/Store/Documents.antt =====
-- crates/vault-store/src/lib.rs: documents, the trash and the text index.
pub mod Custody
use ubod.Base.{String, Option, none, some, List, [], ◌∷◌, ◌++◌, map}
use ubod.Base.{◌==◌, string_eq, if◌then◌else◌, find, remove_first, update_first}
use ubod.Core.Records.{Document, IntegrityStatus, TrashedDocument}
use ubod.Store.State.{DbState}

unfoldable pub add_document : Document → DbState → DbState
add_document doc st = record st { documents = st.documents ++ doc ∷ [] }

unfoldable pub find_by_sha256 : String → DbState → Option Document
find_by_sha256 sha st = find (λ d. d.sha256 == sha) st.documents

unfoldable pub find_by_vault_id : String → DbState → Option Document
find_by_vault_id id st = find (λ d. d.vault_id == id) st.documents

unfoldable pub update_integrity : String → IntegrityStatus → DbState → DbState
update_integrity id status st = record st {
  documents =
      map (λ d. if d.vault_id == id then record d { integrity = status } else d) st.documents;
}

unfoldable pub update_document : Document → DbState → DbState
update_document doc st = record st {
  documents = update_first (λ d. d.vault_id == doc.vault_id) (λ _. doc) st.documents;
}

unfoldable pub remove_document : String → DbState → Option Document × DbState
remove_document id st = elim (find (λ d. d.vault_id == id) st.documents) [
  | none ↦ (none, st)
  | some d ↦ (some d, record st { documents = remove_first (λ d. d.vault_id == id) st.documents })
]

unfoldable pub trash_document : Document → String → String → String → DbState → DbState
unfolding remove_document
trash_document doc by at reason st =
    let gone = (remove_document doc.vault_id st).1 in
    record gone {
      trashed =
          gone.trashed
          ++ record { document = doc; trashed_by = by; trashed_at = at; reason = reason } ∷ [];
    }

unfoldable pub restore_trashed : String → DbState → Option Document × DbState
restore_trashed id st = elim (find (λ t. t.document.vault_id == id) st.trashed) [
  | none ↦ (none, st)
  | some t ↦ (
    some t.document,
    record st {
      trashed = remove_first (λ t. t.document.vault_id == id) st.trashed;
      documents = st.documents ++ t.document ∷ [];
    },
  )
]

unfoldable pub purge_trashed : String → DbState → Option TrashedDocument × DbState
purge_trashed id st = elim (find (λ t. t.document.vault_id == id) st.trashed) [
  | none ↦ (none, st)
  | some t ↦
      (some t, record st { trashed = remove_first (λ t. t.document.vault_id == id) st.trashed })
]

-- `HashMap::insert` and `HashMap::get` on an association list.
abbrev pub map_insert : String → String → List (String × String) → List (String × String)
map_insert k v [] = (k, v) ∷ []
map_insert k v ((j, w) ∷ m) =
    let rest = map_insert k v m in if j == k then (k, v) ∷ m else (j, w) ∷ rest

abbrev pub map_get : String → List (String × String) → Option String
map_get k [] = none
map_get k ((j, v) ∷ m) = if j == k then some v else map_get k m

unfoldable pub set_text : String → String → DbState → DbState
set_text id text st = record st { text_index = map_insert id text st.text_index }

unfoldable pub get_text : String → DbState → Option String
get_text id st = map_get id st.text_index
