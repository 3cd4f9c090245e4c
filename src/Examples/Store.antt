-- ===== src/Examples/Store.antt =====
-- Examples for crates/vault-store/src/lib.rs.
use ubod.Base.{◌≡◌, ◌≢◌, refl, arith, List, [], ◌∷◌, ◌++◌, ap, sym, ◌∙◌, eq_iff, inl, inr, ◌⊎◌}
use ubod.Base.Exec.{ok}
use ubod.Base.Text.{as_bytes, decimal}
use ubod.Store.State.{DbState, AuditEntry, empty_state}
use ubod.Store.Audit.{
  audit_genesis, canonical, verify_from, content_hash, verify_audit_chain, audit_head, chain_head,
}
use ubod.Store.Audit.Chain.{verify-altered, verify-removed, verify-truncated}
use ubod.Store.Audit.Head.{
  IsResistant, Every, audit_head_unique, verify_separator, moved_left, moved_right,
}
use ubod.Examples.{toy}

abbrev with_audit : List AuditEntry → DbState
with_audit es = record empty_state { audit = es }

abbrev first : AuditEntry
first = record {
  seq = 0;
  timestamp = "t";
  actor = "eva";
  action = "rename";
  subject = "6";
  detail = "x";
  prev_hash = audit_genesis;
}

abbrev second : AuditEntry
second = record {
  seq = 1;
  timestamp = "t";
  actor = "pia";
  action = "view";
  subject = "6";
  detail = "y";
  prev_hash = content_hash first;
}

abbrev altered : AuditEntry
altered = record first { actor = "luis" }

abbrev two : DbState
two = with_audit (first ∷ second ∷ [])

two_verified : verify_audit_chain two ≡ ok tt
unfolding verify_audit_chain verify_from content_hash canonical as_bytes decimal
two_verified = refl

one_verified : verify_audit_chain (with_audit (first ∷ [])) ≡ ok tt
unfolding verify_audit_chain verify_from content_hash canonical as_bytes decimal
one_verified = refl

other_hash : content_hash altered ≢ content_hash first
unfolding content_hash canonical as_bytes decimal
other_hash e = ground (arith, eq_iff (content_hash altered) (content_hash first), e)

first_hash : content_hash first ≢ audit_genesis
unfolding content_hash canonical as_bytes decimal
first_hash e = ground (arith, eq_iff (content_hash first) audit_genesis, e)

verify-altered_example :
    verify_audit_chain (record two { audit = [] ++ altered ∷ second ∷ [] }) ≢ ok tt
verify-altered_example = verify-altered two [] [] first second altered two_verified refl other_hash

verify-removed_example : verify_audit_chain (record two { audit = [] ++ second ∷ [] }) ≢ ok tt
verify-removed_example = verify-removed two [] [] first second two_verified refl first_hash

verify-truncated_example : verify_audit_chain (record two { audit = first ∷ [] }) ≡ ok tt
verify-truncated_example = verify-truncated two (first ∷ []) (second ∷ []) two_verified refl

second_hash : content_hash second ≢ audit_genesis
unfolding content_hash canonical as_bytes decimal
second_hash e = ground (arith, eq_iff (content_hash second) audit_genesis, e)

hashes_differ : content_hash first ≢ content_hash second
unfolding content_hash canonical as_bytes decimal
hashes_differ e = ground (arith, eq_iff (content_hash first) (content_hash second), e)

abbrev IsKnown : AuditEntry → Type 0
IsKnown e = (e ≡ first) ⊎ (e ≡ second)

known_injective :
    (a b : AuditEntry) → IsKnown a → IsKnown b → content_hash a ≡ content_hash b → a ≡ b
known_injective a b (inl p) (inl q) same = p ∙ sym q
known_injective a b (inr p) (inr q) same = p ∙ sym q
known_injective a b (inl p) (inr q) same =
    absurd (hashes_differ (sym (ap content_hash p) ∙ same ∙ ap content_hash q))
known_injective a b (inr p) (inl q) same =
    absurd (hashes_differ (sym (sym (ap content_hash p) ∙ same ∙ ap content_hash q)))

known_not_genesis : (a : AuditEntry) → IsKnown a → content_hash a ≢ audit_genesis
known_not_genesis a (inl p) same = first_hash (sym (ap content_hash p) ∙ same)
known_not_genesis a (inr p) same = second_hash (sym (ap content_hash p) ∙ same)

IsKnown-IsResistant : IsResistant IsKnown
IsKnown-IsResistant = record { injective = known_injective; not_genesis = known_not_genesis }

-- The chain of `two`, with its second entry written by hand.
abbrev copied : DbState
copied =
    with_audit (first ∷ record second { prev_hash = audit_head (with_audit (first ∷ [])) } ∷ [])

copied-IsKnown : Every IsKnown copied.audit
unfolding audit_head chain_head
copied-IsKnown = (inl refl, (inr refl, tt))

copied_verified : verify_audit_chain copied ≡ ok tt
unfolding verify_audit_chain verify_from content_hash canonical as_bytes decimal audit_head
    chain_head
copied_verified = refl

same_heads : audit_head two ≡ audit_head copied
unfolding audit_head chain_head
same_heads = refl

audit_head_unique_example : two.audit ≡ copied.audit
audit_head_unique_example =
    audit_head_unique IsKnown IsKnown-IsResistant two copied (inl refl, (inr refl, tt))
      copied-IsKnown two_verified copied_verified same_heads

verify_separator_example :
    verify_audit_chain
      (record two { audit = [] ++ moved_left first "eva" "view" "all" ∷ second ∷ [] })
    ≡ verify_audit_chain
        (record two { audit = [] ++ moved_right first "eva" "view" "all" ∷ second ∷ [] })
verify_separator_example = verify_separator first "eva" "view" "all" two [] (second ∷ [])
