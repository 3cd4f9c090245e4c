-- ===== src/Store/Audit.antt =====
-- crates/vault-store/src/lib.rs: the hash-linked audit chain.
pub mod Chain
pub mod Head
use ubod.Base.{String, append, Option, none, some, List, [], ◌∷◌, ◌++◌, ◌≡◌}
use ubod.Base.{◌==◌, string_eq, if◌then◌else◌, keep, last?, length}
use ubod.Base.Exec.{Result, ok, err}
use ubod.Base.Foreign.{Foreign}
use ubod.Base.Text.{decimal, as_bytes}
use ubod.Store.State.{DbState, AuditEntry}

abbrev pub audit_genesis : String
audit_genesis = "0000000000000000000000000000000000000000000000000000000000000000"

-- The text that is hashed: the fields with `|` between them.
unfoldable pub canonical : AuditEntry → String
canonical e = append (decimal e.seq) (
    append "|" (
      append e.timestamp (
        append "|" (
          append e.actor (
            append "|" (
              append e.action (
                append "|"
                  (append e.subject (append "|" (append e.detail (append "|" e.prev_hash)))))))))))

-- The message of `verify_audit_chain`.
abbrev pub broken_link : AuditEntry → String
broken_link e = append "entrada " (append (decimal e.seq) " enlaza con hash incorrecto")

module _ ⦃f : Foreign⦄ where
  unfoldable pub content_hash : AuditEntry → String
  content_hash e = f.sha256 (as_bytes (canonical e))

  -- `audit_head`, also the link that `append_audit` gives a new entry
  unfoldable pub chain_head : List AuditEntry → String
  chain_head es = elim (last? es) [ none ↦ audit_genesis | some e ↦ content_hash e ]

  abbrev pub next_entry : String → String → String → String → String → DbState → AuditEntry
  next_entry now actor action subject detail st = record {
    seq = length st.audit;
    timestamp = now;
    actor = actor;
    action = action;
    subject = subject;
    detail = detail;
    prev_hash = chain_head st.audit;
  }

  -- Gives back the hash of the new entry.
  unfoldable pub append_audit :
      String → String → String → String → String → DbState → String × DbState
  append_audit now actor action subject detail st =
      let entry = next_entry now actor action subject detail st in
      (content_hash entry, record st { audit = st.audit ++ entry ∷ [] })

  unfoldable pub audit_head : DbState → String
  audit_head st = chain_head st.audit

  -- The loop of `verify_audit_chain`, from the hash that the next entry has to name.
  unfoldable pub verify_from : String → List AuditEntry → Result String (Unit {0})
  verify_from prev [] = ok tt
  verify_from prev (e ∷ es) =
      let rest = verify_from (content_hash e) es in
      if e.prev_hash == prev then rest else err (broken_link e)

  unfoldable pub verify_audit_chain : DbState → Result String (Unit {0})
  verify_audit_chain st = verify_from audit_genesis st.audit

unfoldable pub audit_of : String → DbState → List AuditEntry
audit_of actor st = keep (λ e. e.actor == actor) st.audit
