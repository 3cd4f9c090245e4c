-- ===== src/Roles/Numbering.antt =====
-- The newest version has the greatest number: crates/vault-store/src/lib.rs, and the number that
-- `edit_meta` of crates/vault-roles/src/lib.rs gives the next one.
use ubod.Base.{
  ℕ, ◌+◌, ◌%◌, String, Bool, true, not, ◌&&◌, ◌||◌, ◌≡◌, ◌≢◌, ◌≤◌, ◌<◌, refl, sym, ap, ◌∙◌, arith,
  none, some, List, [], ◌∷◌, all, keep, last?, leb, ltb, ◌==◌, nat_eq, string_eq, Option-cases, inl,
  inr,
}
use ubod.Core.Records.{DocumentVersion}
use ubod.Store.State.{DbState}
use ubod.Store.Versions.{insert_version, sort_versions, versions_of}
use ubod.Roles.Edit.{next_version}

abbrev at_most : ℕ → List DocumentVersion → Bool
at_most n vs = all (λ v. leb v.version n) vs

abbrev ascending : List DocumentVersion → Bool
ascending [] = true
ascending (v ∷ vs) = all (λ w. leb v.version w.version) vs && ascending vs

insert_version-all :
    (p : DocumentVersion → Bool) (v : DocumentVersion) (vs : List DocumentVersion)
    → all p (insert_version v vs) ≡ all p (v ∷ vs)
unfolding insert_version
insert_version-all p v [] = refl
insert_version-all p v (w ∷ ws) = ground (arith, insert_version-all p v ws)

all_trans :
    (m n : ℕ) (vs : List DocumentVersion)
    → m ≤ n
    → all (λ w. leb n w.version) vs ≡ true
    → all (λ w. leb m w.version) vs ≡ true
all_trans m n [] h k = refl
all_trans m n (v ∷ vs) h k = ground (arith, all_trans m n vs h)

insert_version-ascending :
    (v : DocumentVersion) (vs : List DocumentVersion)
    → ascending vs ≡ true
    → ascending (insert_version v vs) ≡ true
unfolding insert_version
insert_version-ascending v [] h = refl
insert_version-ascending v (w ∷ ws) h = ground (
  arith,
  insert_version-ascending v ws,
  insert_version-all (λ u. leb w.version u.version) v ws,
  all_trans v.version w.version ws,
)

sort_versions-ascending : (vs : List DocumentVersion) → ascending (sort_versions vs) ≡ true
unfolding sort_versions
sort_versions-ascending [] = refl
sort_versions-ascending (v ∷ vs) =
    insert_version-ascending v (sort_versions vs) (sort_versions-ascending vs)

sort_versions-all :
    (p : DocumentVersion → Bool) (vs : List DocumentVersion) → all p (sort_versions vs) ≡ all p vs
unfolding sort_versions
sort_versions-all p [] = refl
sort_versions-all p (v ∷ vs) =
    insert_version-all p v (sort_versions vs) ∙ ap (λ b. p v && b) (sort_versions-all p vs)

ascending-last :
    (vs : List DocumentVersion) (v : DocumentVersion)
    → ascending vs ≡ true
    → last? vs ≡ some v
    → at_most v.version vs ≡ true
ascending-last [] v h e = refl
ascending-last (w ∷ []) v h e = ground arith
ascending-last (w ∷ u ∷ vs) v h e = ground (arith, ascending-last (u ∷ vs) v)

last?-all :
    (p : DocumentVersion → Bool) (vs : List DocumentVersion) (v : DocumentVersion)
    → last? vs ≡ some v
    → all p vs ≡ true
    → p v ≡ true
last?-all p [] v e h = absurd (ground arith)
last?-all p (w ∷ []) v e h = ground arith
last?-all p (w ∷ u ∷ vs) v e h = ground (arith, last?-all p (u ∷ vs) v e)

keep-all :
    (q p : DocumentVersion → Bool) (vs : List DocumentVersion)
    → all p (keep q vs) ≡ all (λ v. not (q v) || p v) vs
keep-all q p [] = refl
keep-all q p (v ∷ vs) = ground (arith, keep-all q p vs)

keep-all_of :
    (q p : DocumentVersion → Bool) (vs : List DocumentVersion)
    → all p vs ≡ true
    → all p (keep q vs) ≡ true
keep-all_of q p [] h = refl
keep-all_of q p (v ∷ vs) h = ground (arith, keep-all_of q p vs)

all_below :
    (n : ℕ) (v : DocumentVersion) (vs : List DocumentVersion)
    → at_most v.version vs ≡ true
    → v.version < n
    → all (λ w. ltb w.version n) vs ≡ true
all_below n v [] h k = refl
all_below n v (w ∷ ws) h k = ground (arith, all_below n v ws)

newest_below :
    (vs : List DocumentVersion) (v : DocumentVersion)
    → all (λ w. ltb w.version 4294967295) vs ≡ true
    → last? (sort_versions vs) ≡ some v
    → all (λ w. ltb w.version ((v.version + 1) % 4294967296)) (sort_versions vs) ≡ true
newest_below vs v small e =
    let fits =
      last?-all (λ w. ltb w.version 4294967295) (sort_versions vs) v e
        (sort_versions-all _ vs ∙ small) in
    all_below _ v (sort_versions vs)
      (ascending-last (sort_versions vs) v (sort_versions-ascending vs) e) (ground (arith, fits))

last?-cons : (v : DocumentVersion) (vs : List DocumentVersion) → last? (v ∷ vs) ≢ none
last?-cons v [] e = absurd (ground arith)
last?-cons v (w ∷ vs) e = last?-cons w vs e

last?-none :
    (vs : List DocumentVersion) (p : DocumentVersion → Bool) → last? vs ≡ none → all p vs ≡ true
last?-none [] p e = refl
last?-none (v ∷ vs) p e = absurd (last?-cons v vs e)

-- The number that an edit by Coordinación gives to the next version of a document is greater than
-- that of every version of it that is kept, as long as no number has reached the end of its 32 bits.
pub next_version_newest :
    (id : String) (st : DbState)
    → all (λ v. ltb v.version 4294967295) st.versions ≡ true
    → all (λ v. not (v.vault_id == id) || ltb v.version (next_version id st)) st.versions ≡ true
unfolding next_version versions_of
next_version_newest id st small =
    let mine = keep (λ (v : DocumentVersion). v.vault_id == id) st.versions in
    sym (keep-all _ _ st.versions) ∙ elim (Option-cases (last? (sort_versions mine))) [
      | inl e ↦ sym (sort_versions-all _ mine) ∙ last?-none (sort_versions mine) _ e
      | inr (v, e) ↦
          rw (e, next_version)
            (sym (sort_versions-all _ mine)
              ∙ newest_below mine v (keep-all_of _ _ st.versions small) e)
    ]
