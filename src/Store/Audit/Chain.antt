-- ===== src/Store/Audit/Chain.antt =====
-- What the audit chain shows about its history: crates/vault-store/src/lib.rs.
use ubod.Base.{
  String, List, [], ◌∷◌, ◌++◌, ◌≡◌, ◌≢◌, refl, sym, ap, ◌∙◌, arith, eq_iff, string_eq, last?-append,
}
use ubod.Base.Exec.{ok}
use ubod.Base.Foreign.{Foreign}
use ubod.Store.State.{DbState, AuditEntry}
use ubod.Store.Audit.{
  audit_genesis, content_hash, chain_head, append_audit, audit_head, verify_from, next_entry,
  verify_audit_chain,
}

module _ ⦃f : Foreign⦄ where
  -- The hash that an entry after `es` has to name.
  abbrev pub head_from : String → List AuditEntry → String
  head_from prev [] = prev
  head_from prev (e ∷ es) = head_from (content_hash e) es

  chain_head-head_from :
      (prev : String) (e : AuditEntry) (es : List AuditEntry)
      → chain_head (e ∷ es) ≡ head_from prev (e ∷ es)
  unfolding chain_head
  chain_head-head_from prev e [] = refl
  chain_head-head_from prev e (x ∷ es) = chain_head-head_from (content_hash e) x es

  head_from-genesis : (es : List AuditEntry) → chain_head es ≡ head_from audit_genesis es
  unfolding chain_head
  head_from-genesis [] = refl
  head_from-genesis (e ∷ es) = chain_head-head_from audit_genesis e es

  verify_from-append :
      (prev : String) (es fs : List AuditEntry)
      → verify_from prev es ≡ ok tt
      → verify_from prev (es ++ fs) ≡ verify_from (head_from prev es) fs
  unfolding verify_from
  verify_from-append prev [] fs h = refl
  verify_from-append prev (e ∷ es) fs h = ground (arith, verify_from-append (content_hash e) es fs)

  verify_from-front :
      (prev : String) (es fs : List AuditEntry)
      → verify_from prev (es ++ fs) ≡ ok tt
      → verify_from prev es ≡ ok tt
  unfolding verify_from
  verify_from-front prev [] fs h = refl
  verify_from-front prev (e ∷ es) fs h = ground (arith, verify_from-front (content_hash e) es fs)

  verify_from-back :
      (prev : String) (es fs : List AuditEntry)
      → verify_from prev (es ++ fs) ≡ ok tt
      → verify_from (head_from prev es) fs ≡ ok tt
  verify_from-back prev es fs h =
      sym (verify_from-append prev es fs (verify_from-front prev es fs h)) ∙ h

  pub chain_head-append :
      (es : List AuditEntry) (e : AuditEntry) → chain_head (es ++ e ∷ []) ≡ content_hash e
  unfolding chain_head
  chain_head-append es e = rw (last?-append es e, chain_head)

  verify_next :
      (es : List AuditEntry) (e : AuditEntry)
      → e.prev_hash ≡ chain_head es
      → verify_from (head_from audit_genesis es) (e ∷ []) ≡ ok tt
  unfolding verify_from
  verify_next es e h =
      ground (arith, eq_iff e.prev_hash (head_from audit_genesis es), head_from-genesis es)

  -- A valid chain stays valid when an entry is appended, and the new head is the hash of the new
  -- entry, which is what `append_audit` gives back.
  pub append_audit-verify :
      (now actor action subject detail : String) (st : DbState)
      → verify_audit_chain st ≡ ok tt
      → let r = append_audit now actor action subject detail st in
        (verify_audit_chain r.1 ≡ ok tt) × (audit_head r.1 ≡ r.0)
  unfolding verify_audit_chain verify_from append_audit audit_head
  append_audit-verify now actor action subject detail st h =
      let e = next_entry now actor action subject detail st in
      (
        verify_from-append audit_genesis st.audit (e ∷ []) h ∙ verify_next st.audit e refl,
        chain_head-append st.audit e,
      )

  pub linked :
      (prev : String) (e : AuditEntry) (es : List AuditEntry)
      → verify_from prev (e ∷ es) ≡ ok tt
      → (e.prev_hash ≡ prev) × (verify_from (content_hash e) es ≡ ok tt)
  unfolding verify_from
  linked prev e es h = ground (arith, eq_iff e.prev_hash prev)

  -- In a valid chain, an entry that another follows cannot be replaced by one with another hash.
  pub verify-altered :
      (st : DbState) (before after : List AuditEntry) (e f' e' : AuditEntry)
      → verify_audit_chain st ≡ ok tt
      → st.audit ≡ before ++ e ∷ f' ∷ after
      → content_hash e' ≢ content_hash e
      → verify_audit_chain (record st { audit = before ++ e' ∷ f' ∷ after }) ≢ ok tt
  unfolding verify_audit_chain
  verify-altered st before after e f' e' h split other altered =
      let old =
        verify_from-back audit_genesis before (e ∷ f' ∷ after)
          (ap (verify_from audit_genesis) (sym split) ∙ h) in
      let new = verify_from-back audit_genesis before (e' ∷ f' ∷ after) altered in
      other (
        cc (
          (linked _ f' after (linked _ e (f' ∷ after) old).1).0,
          (linked _ f' after (linked _ e' (f' ∷ after) new).1).0,
        ))

  -- Nor can it be taken out, if it does not name its own hash.
  pub verify-removed :
      (st : DbState) (before after : List AuditEntry) (e f' : AuditEntry)
      → verify_audit_chain st ≡ ok tt
      → st.audit ≡ before ++ e ∷ f' ∷ after
      → content_hash e ≢ e.prev_hash
      → verify_audit_chain (record st { audit = before ++ f' ∷ after }) ≢ ok tt
  unfolding verify_audit_chain
  verify-removed st before after e f' h split other removed =
      let old =
        verify_from-back audit_genesis before (e ∷ f' ∷ after)
          (ap (verify_from audit_genesis) (sym split) ∙ h) in
      let new = verify_from-back audit_genesis before (f' ∷ after) removed in
      other (
        cc (
          (linked _ e (f' ∷ after) old).0,
          (linked _ f' after (linked _ e (f' ∷ after) old).1).0,
          (linked _ f' after new).0,
        ))

  -- The newest entries can be cut off: what is left of a valid chain is valid.
  pub verify-truncated :
      (st : DbState) (before cut : List AuditEntry)
      → verify_audit_chain st ≡ ok tt
      → st.audit ≡ before ++ cut
      → verify_audit_chain (record st { audit = before }) ≡ ok tt
  unfolding verify_audit_chain
  verify-truncated st before cut h split =
      verify_from-front audit_genesis before cut (ap (verify_from audit_genesis) (sym split) ∙ h)
