-- ===== src/Store/Versions.antt =====
-- crates/vault-store/src/lib.rs: immutable versions of documents.
use ubod.Base.{String, List, [], ◌∷◌, ◌++◌}
use ubod.Base.{◌==◌, string_eq, if◌then◌else◌, keep, ltb}
use ubod.Core.Records.{DocumentVersion}
use ubod.Store.State.{DbState}

-- `sort_by_key(|v| v.version)`: a stable insertion sort.
unfoldable pub insert_version : DocumentVersion → List DocumentVersion → List DocumentVersion
insert_version v [] = v ∷ []
insert_version v (w ∷ ws) =
    let rest = insert_version v ws in if ltb w.version v.version then w ∷ rest else v ∷ w ∷ ws

unfoldable pub sort_versions : List DocumentVersion → List DocumentVersion
unfolding insert_version
sort_versions [] = []
sort_versions (v ∷ vs) = insert_version v (sort_versions vs)

unfoldable pub versions_of : String → DbState → List DocumentVersion
unfolding sort_versions
versions_of id st = sort_versions (keep (λ v. v.vault_id == id) st.versions)

unfoldable pub add_version : DocumentVersion → DbState → DbState
add_version v st = record st { versions = st.versions ++ v ∷ [] }
