-- ===== src/Store/Audit/Head.antt =====
-- What the head hash and the canonical text of an entry say: crates/vault-store/src/lib.rs.
use mathlib.Core.List.{reverse, reverse-cons, reverse-reverse, append_assoc, append-nil}
use text.Mathlib.TextLemmas.{append_assoc as text_assoc}
use ubod.Base.{
  String, append, List, [], ◌∷◌, ◌++◌, ◌≡◌, ◌≢◌, refl, sym, ap, ◌∙◌, if◌then◌else◌, ◌==◌, string_eq,
}
use ubod.Base.Exec.{ok, err}
use ubod.Base.Foreign.{Foreign}
use ubod.Base.Text.{as_bytes}
use ubod.Store.State.{DbState, AuditEntry}
use ubod.Store.Audit.{
  audit_genesis, canonical, content_hash, chain_head, audit_head, verify_from, verify_audit_chain,
  broken_link,
}
use ubod.Store.Audit.Chain.{chain_head-append, linked}

module _ ⦃f : Foreign⦄ where
  -- A chain read from its newest entry: its head, and that each entry names the one before it.
  abbrev newest_hash : List AuditEntry → String
  newest_hash [] = audit_genesis
  newest_hash (e ∷ es) = content_hash e

  abbrev IsLinked : List AuditEntry → Type 0
  IsLinked [] = Unit {0}
  IsLinked (e ∷ es) = (e.prev_hash ≡ newest_hash es) × IsLinked es

  reverse-IsLinked :
      (seen es : List AuditEntry)
      → IsLinked seen
      → verify_from (newest_hash seen) es ≡ ok tt
      → IsLinked (reverse es ++ seen)
  reverse-IsLinked seen [] l h = l
  reverse-IsLinked seen (e ∷ es) l h =
      let (named, rest) = linked (newest_hash seen) e es h in
      rw (reverse-cons e es, append_assoc) (reverse-IsLinked (e ∷ seen) es (named, l) rest)

  newest_hash-reverse : (es : List AuditEntry) → newest_hash (reverse es) ≡ chain_head es
  unfolding chain_head
  newest_hash-reverse es = go (reverse es) (reverse-reverse es)
    where
      go : (rs : List AuditEntry) → reverse rs ≡ es → newest_hash rs ≡ chain_head es
      go [] p = rw (← p)
      go (e ∷ rs) p = rw (← p, reverse-cons e rs) (sym (chain_head-append (reverse rs) e))

abbrev pub Every : (AuditEntry → Type 0) → List AuditEntry → Type 0
Every P [] = Unit {0}
Every P (e ∷ es) = P e × Every P es

Every-append :
    (P : AuditEntry → Type 0) (es fs : List AuditEntry)
    → Every P es
    → Every P fs
    → Every P (es ++ fs)
Every-append P [] fs h k = k
Every-append P (e ∷ es) fs h k = (h.0, Every-append P es fs h.1 k)

Every-reverse : (P : AuditEntry → Type 0) (es : List AuditEntry) → Every P es → Every P (reverse es)
Every-reverse P [] h = tt
Every-reverse P (e ∷ es) h =
    rw (reverse-cons e es) (Every-append P (reverse es) (e ∷ []) (Every-reverse P es h.1) (h.0, tt))

-- On the entries that satisfy `P`, the content hash has no collision and is never the hash that
-- stands for the empty chain.
pub record IsResistant ⦃f : Foreign⦄ (P : AuditEntry → Type 0) : Type 0 where
  pub injective : (a b : AuditEntry) → P a → P b → content_hash a ≡ content_hash b → a ≡ b
  pub not_genesis : (a : AuditEntry) → P a → content_hash a ≢ audit_genesis

module _ ⦃f : Foreign⦄ (P : AuditEntry → Type 0) (resistant : IsResistant P) where
  linked_unique :
      (es fs : List AuditEntry)
      → Every P es
      → Every P fs
      → IsLinked es
      → IsLinked fs
      → newest_hash es ≡ newest_hash fs
      → es ≡ fs
  linked_unique [] [] p q l m h = refl
  linked_unique [] (x ∷ fs) p q l m h = absurd (resistant.not_genesis x q.0 (sym h))
  linked_unique (e ∷ es) [] p q l m h = absurd (resistant.not_genesis e p.0 h)
  linked_unique (e ∷ es) (x ∷ fs) p q l m h =
      let same = resistant.injective e x p.0 q.0 h in
      let named : newest_hash es ≡ newest_hash fs =
        sym l.0 ∙ ap (λ (a : AuditEntry). a.prev_hash) same ∙ m.0 in
      cc (same, linked_unique es fs p.1 q.1 l.1 m.1 named)

  -- Two valid chains with the same head are the same chain, if the content hash has no collision on
  -- the entries of the two chains and gives none of them the hash that stands for the empty chain.
  pub audit_head_unique :
      (s t : DbState)
      → Every P s.audit
      → Every P t.audit
      → verify_audit_chain s ≡ ok tt
      → verify_audit_chain t ≡ ok tt
      → audit_head s ≡ audit_head t
      → s.audit ≡ t.audit
  unfolding verify_audit_chain audit_head
  audit_head_unique s t p q hs ht same =
      let turned =
        linked_unique (reverse s.audit) (reverse t.audit) (Every-reverse P s.audit p)
          (Every-reverse P t.audit q) (chain s hs) (chain t ht)
          (newest_hash-reverse s.audit ∙ same ∙ sym (newest_hash-reverse t.audit)) in
      sym (reverse-reverse s.audit) ∙ ap reverse turned ∙ reverse-reverse t.audit
    where
      chain : (u : DbState) → verify_from audit_genesis u.audit ≡ ok tt → IsLinked (reverse u.audit)
      chain u h = rw append-nil at (reverse-IsLinked [] u.audit tt h)

-- The entry with its actor and action given anew.
abbrev pub acted : AuditEntry → String → String → AuditEntry
acted e actor action = record e { actor = actor; action = action }

module _ ⦃f : Foreign⦄ (e : AuditEntry) (a b c : String) where
  abbrev pub moved_left : AuditEntry
  moved_left = acted e (append a (append "|" b)) c

  abbrev pub moved_right : AuditEntry
  moved_right = acted e a (append b (append "|" c))

  canonical-moved : canonical moved_left ≡ canonical moved_right
  unfolding canonical
  canonical-moved = simp text_assoc

  content_hash-moved : content_hash moved_left ≡ content_hash moved_right
  unfolding content_hash
  content_hash-moved = ap (λ t. f.sha256 (as_bytes t)) canonical-moved

  verify_from-moved :
      (prev : String) (before after : List AuditEntry)
      → verify_from prev (before ++ moved_left ∷ after)
        ≡ verify_from prev (before ++ moved_right ∷ after)
  unfolding verify_from
  verify_from-moved prev [] after = rw content_hash-moved
  verify_from-moved prev (x ∷ before) after =
      ap (λ r. if x.prev_hash == prev then r else err (broken_link x))
        (verify_from-moved (content_hash x) before after)

  -- The separator is not escaped: words can move between the actor and the action of any entry of
  -- any chain, and the chain verifies as before.
  pub verify_separator :
      (st : DbState) (before after : List AuditEntry)
      → verify_audit_chain (record st { audit = before ++ moved_left ∷ after })
        ≡ verify_audit_chain (record st { audit = before ++ moved_right ∷ after })
  unfolding verify_audit_chain
  verify_separator st before after = verify_from-moved audit_genesis before after
