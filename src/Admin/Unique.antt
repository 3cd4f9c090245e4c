-- ===== src/Admin/Unique.antt =====
-- The digests of the documents in the active index, over what the administrator's service is asked for:
-- crates/vault-admin/src/lib.rs.
use ubod.Base.{
  ℕ, String, Bool, true, false, not, ◌&&◌, ◌||◌, ◌==◌, string_eq, List, [], ◌∷◌, ◌++◌, none, ◌≡◌,
  refl, sym, subst, arith, any, find, remove_first, Bool-cases, Option-cases, inl, inr, ◌∙◌,
}
use ubod.Base.Foreign.{Foreign}
use ubod.Core.Records.{AdmissionState, Document}
use ubod.Index.Rules.{Ruleset}
use ubod.Store.State.{DbState}
use ubod.Store.Audit.{append_audit}
use ubod.Store.Documents.{remove_document, add_document, set_text, find_by_sha256}
use ubod.Store.Submissions.{update_submission_state}
use ubod.Store.Users.{set_admin_pin_hash, upsert_device}
use ubod.Admin.{AdminService}
use ubod.Admin.Kept.{IsApart, IsKept}
use ubod.Admin.Requests.{Keeps-administer_all}
use ubod.Admin.Sealed.{IsCustody}
use ubod.Admin.Sealing.{Outside}
use ubod.Admin.Service.{AdminRequest, administer_all}

abbrev pub same_content : Document → Document → Bool
same_content d e = d.sha256 == e.sha256

-- No two of the documents have the same digest.
unfoldable pub unique : List Document → Bool
unique [] = true
unique (d ∷ ds) = not (any (λ e. same_content e d) ds) && unique ds

same_sym : (x y : String) → (x == y) ≡ true → (y == x) ≡ true
same_sym x y h = (string_eq.equal_iff y x).1 (sym ((string_eq.equal_iff x y).0 h))

both : (a b : Bool) → (not a && b) ≡ true → (a ≡ false) × (b ≡ true)
both a b h = (ground (arith, h), ground (arith, h))

neither : (a b : Bool) → a ≡ false → b ≡ false → (a || b) ≡ false
neither a b h k = ground (arith, h, k)

negated : (a b : Bool) → a ≡ false → b ≡ true → (not a && b) ≡ true
negated a b h k = ground (arith, h, k)

other_way : (x y : String) → (x == y) ≡ false → (y == x) ≡ false
other_way x y h = elim (Bool-cases (y == x)) [
  | inl e ↦ absurd (ground (arith, h, same_sym y x e))
  | inr e ↦ e
]

missed :
    (doc d : Document) (ds : List Document)
    → find (λ e. e.sha256 == doc.sha256) (d ∷ ds) ≡ none
    → (same_content d doc ≡ false) × (find (λ e. e.sha256 == doc.sha256) ds ≡ none)
missed doc d ds h = elim (Bool-cases (d.sha256 == doc.sha256)) [
  | inl e ↦ absurd (ground (arith, h, e))
  | inr e ↦ (e, ground (arith, h, e))
]

any-append :
    (d doc : Document) (ds : List Document)
    → any (λ e. same_content e d) (ds ++ doc ∷ [])
      ≡ (any (λ e. same_content e d) ds || same_content doc d)
any-append d doc [] = ground arith
any-append d doc (e ∷ ds) = ground (arith, any-append d doc ds)

-- A test that sets the content of `doc` apart sets those of the documents apart from it.
unique-append :
    (doc : Document) (ds : List Document)
    → find (λ d. d.sha256 == doc.sha256) ds ≡ none
    → unique ds ≡ true
    → unique (ds ++ doc ∷ []) ≡ true
unfolding unique
unique-append doc [] unseen h = refl
unique-append doc (d ∷ ds) unseen h =
    let (apart, rest) = missed doc d ds unseen in
    let (alone, others) = both (any (λ e. same_content e d) ds) (unique ds) h in
    negated (any (λ e. same_content e d) (ds ++ doc ∷ [])) (unique (ds ++ doc ∷ []))
      (any-append d doc ds ∙ neither _ _ alone (other_way d.sha256 doc.sha256 apart))
      (unique-append doc ds rest others)

any-remove_first :
    (q p : Document → Bool) (ds : List Document)
    → any q ds ≡ false
    → any q (remove_first p ds) ≡ false
any-remove_first q p [] h = refl
any-remove_first q p (d ∷ ds) h = ground (arith, h, any-remove_first q p ds)

unique-remove_first :
    (p : Document → Bool) (ds : List Document)
    → unique ds ≡ true
    → unique (remove_first p ds) ≡ true
unfolding unique
unique-remove_first p [] h = refl
unique-remove_first p (d ∷ ds) h =
    let (alone, others) = both (any (λ e. same_content e d) ds) (unique ds) h in
    elim (Bool-cases (p d)) [
      | inl e ↦ rw e others
      | inr e ↦ rw e (
          negated (any (λ x. same_content x d) (remove_first p ds)) (unique (remove_first p ds))
            (any-remove_first (λ x. same_content x d) p ds alone) (unique-remove_first p ds others))
    ]

abbrev IsUnique : DbState → Type 0
IsUnique st = unique st.documents ≡ true

remove_document-IsUnique :
    (id : String) (st : DbState) → IsUnique st → IsUnique (remove_document id st).1
unfolding remove_document
remove_document-IsUnique id st h = elim (Option-cases (find (λ d. d.vault_id == id) st.documents)) [
  | inl e ↦ rw (e, remove_document) h
  | inr (d, e) ↦
      rw (e, remove_document) (unique-remove_first (λ x. x.vault_id == id) st.documents h)
]

update_submission_state-documents :
    (id : String) (new : AdmissionState) (st : DbState)
    → (update_submission_state id new st).1.documents ≡ st.documents
unfolding update_submission_state
update_submission_state-documents id new st = ground arith

module _ ⦃f : Foreign⦄ where
  IsUnique-IsApart : IsApart IsUnique
  unfolding append_audit upsert_device
  IsUnique-IsApart = record { logged = λ now a b c d st h. h; registered = λ d st h. h }

  IsUnique-IsKept : IsKept IsUnique
  unfolding set_admin_pin_hash
  IsUnique-IsKept = record {
    apart = IsUnique-IsApart;
    hashed = λ hash st h. h;
    configured = λ key v st h. h;
    removed = λ id st h. remove_document-IsUnique id st h;
    decided = λ id new st h.
        subst (λ ds. unique ds ≡ true) (sym (update_submission_state-documents id new st)) h;
  }

  IsUnique-IsCustody : IsCustody IsUnique
  unfolding set_text add_document find_by_sha256
  IsUnique-IsCustody = record {
    kept = IsUnique-IsKept;
    indexed = λ id text st h. h;
    added = λ doc st unseen h. unique-append doc st.documents unseen h;
  }

  -- Whatever sequence of requests the administrator's service serves, whether each returns or fails
  -- and whatever faults the system has, no two documents of the active index have the same SHA-256
  -- after it if no two had before. The trash is not looked at.
  pub administer_all-unique :
      (noise : ℕ → ℕ) (out : Outside) (rules : Ruleset) (rs : List AdminRequest) (s : AdminService)
      → unique s.vault.db.state.documents ≡ true
      → unique (administer_all noise out rules rs s).vault.db.state.documents ≡ true
  administer_all-unique noise out rules rs s h =
      (Keeps-administer_all IsUnique-IsCustody noise out rules rs s
        (record { world = record { kept = h } })).world.kept
