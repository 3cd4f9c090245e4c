-- ===== src/Audit/Steps.antt =====
-- The steps of a sweep without faults, and what each adds to the report: crates/vault-audit/src/lib.rs.
use mathlib.Core.List.{append-nil}
use ubod.Base.{
  String, Bool, true, false, none, some, List, [], ◌∷◌, ◌≡◌, refl, sym, ◌∙◌, arith, ◌==◌, string_eq,
  Bool-cases, Option-cases, inl, inr,
}
use ubod.Base.Exec.{ok, pure, gets, ◌>>=◌}
use ubod.Base.Foreign.{Foreign}
use ubod.Core.Records.{Document, IntegrityStatus, status_eq}
use ubod.Fs.World.{World, File, lookup, on_state, log, now_text}
use ubod.Fs.Files.{exists, read_file}
use ubod.Fs.Files.Sealing.{bind_ok, metadata_calm}
use ubod.Fs.Paths.{abs_path}
use ubod.Store.Audit.{append_audit}
use ubod.Store.Documents.{update_integrity}
use ubod.Audit.{
  AuditError, SweepReport, count_missing, count_tampered, count_ok, note_missing, note_tampered,
  note_ok, compare_digests, check_document, check_all,
}
use ubod.Audit.Adds.{is_gone, same_digests, Adds, Step, Adds-cons, Adds-moved}

module _ ⦃f : Foreign⦄ where
  -- One document without a file, with another content, and intact.
  module _ (w : World) (d : Document) (r : SweepReport) where
    missing-Adds :
        lookup (abs_path w.root d.rel_path) w.files ≡ none
        → Adds w.root w.files (d ∷ []) r (count_missing d.vault_id r)
    missing-Adds e = record {
      all_checked = omega arith;
      all_missing = rw e refl;
      all_ok = rw e (omega arith);
      total = omega arith;
      all_problems = rw e refl;
    }

    found_file :
        (file : File)
        → lookup (abs_path w.root d.rel_path) w.files ≡ some file
        → is_gone w.root w.files d ≡ false
    found_file file e = rw e refl

    tampered-Adds :
        (file : File)
        → lookup (abs_path w.root d.rel_path) w.files ≡ some file
        → same_digests d (some file) ≡ false
        → Adds w.root w.files (d ∷ []) r (count_tampered d.vault_id r)
    tampered-Adds file e bad = record {
      all_checked = omega arith;
      all_missing = rw (found_file file e) (omega arith);
      all_ok = rw (e, bad) (omega arith);
      total = omega arith;
      all_problems = rw (e, bad) refl;
    }

    ok-Adds :
        (file : File) (b : Bool)
        → lookup (abs_path w.root d.rel_path) w.files ≡ some file
        → same_digests d (some file) ≡ true
        → Adds w.root w.files (d ∷ []) r (count_ok b r)
    ok-Adds file b e good = record {
      all_checked = omega arith;
      all_missing = rw (found_file file e) (omega arith);
      all_ok = rw (e, good) refl;
      total = omega arith;
      all_problems = rw (e, good) (sym (append-nil r.problems));
    }

    missing-Step :
        w.faults ≡ []
        → lookup (abs_path w.root d.rel_path) w.files ≡ none
        → Step w w (d ∷ []) r (check_document d r)
    unfolding check_document note_missing exists on_state log ◌>>=◌ now_text lookup append_audit
    missing-Step calm e = record {
      report = count_missing d.vault_id r;
      after = (note_missing d r w).1;
      runs = rw e refl;
      calm = record { no_faults = calm; same_root = refl; same_files = refl; same_mode = refl };
      adds = missing-Adds e;
    }

    note_ok-Step :
        (file : File)
        → w.faults ≡ []
        → lookup (abs_path w.root d.rel_path) w.files ≡ some file
        → same_digests d (some file) ≡ true
        → Step w w (d ∷ []) r (note_ok d r)
    unfolding note_ok on_state ◌>>=◌
    note_ok-Step file calm e good = elim (Bool-cases (d.integrity == IntegrityStatus.ok)) [
      | inl t ↦ record {
        report = count_ok false r;
        after = w;
        runs = rw t refl;
        calm = record { no_faults = calm; same_root = refl; same_files = refl; same_mode = refl };
        adds = ok-Adds file false e good;
      }
      | inr t ↦ record {
        report = count_ok true r;
        after = (on_state {E = AuditError} (update_integrity d.vault_id IntegrityStatus.ok) w).1;
        runs = rw t refl;
        calm = record { no_faults = calm; same_root = refl; same_files = refl; same_mode = refl };
        adds = ok-Adds file true e good;
      }
    ]

    note_tampered-Step :
        (file : File) (h : String)
        → w.faults ≡ []
        → lookup (abs_path w.root d.rel_path) w.files ≡ some file
        → same_digests d (some file) ≡ false
        → Step w w (d ∷ []) r (note_tampered d h r)
    unfolding note_tampered on_state log ◌>>=◌ now_text
    note_tampered-Step file h calm e bad = record {
      report = count_tampered d.vault_id r;
      after = (note_tampered d h r w).1;
      runs = refl;
      calm = record { no_faults = calm; same_root = refl; same_files = refl; same_mode = refl };
      adds = tampered-Adds file e bad;
    }

    found-Step :
        (file : File)
        → w.faults ≡ []
        → lookup (abs_path w.root d.rel_path) w.files ≡ some file
        → Step w w (d ∷ []) r (compare_digests d file.bytes r)
    unfolding compare_digests
    found-Step file calm e = elim (Bool-cases (same_digests d (some file))) [
      | inl good ↦ rw good (note_ok-Step file calm e good)
      | inr bad ↦ rw bad (note_tampered-Step file (f.sha256 file.bytes) calm e bad)
    ]

    content :
        (file : File)
        → w.faults ≡ []
        → lookup (abs_path w.root d.rel_path) w.files ≡ some file
        → read_file AuditError.io (abs_path w.root d.rel_path) w ≡ (ok file.bytes, w)
    unfolding read_file pure
    content file calm e =
        bind_ok _ _ (metadata_calm AuditError.io w calm (abs_path w.root d.rel_path) file e) refl

    reads :
        (file : File)
        → w.faults ≡ []
        → lookup (abs_path w.root d.rel_path) w.files ≡ some file
        → check_document d r w ≡ compare_digests d file.bytes r w
    unfolding check_document exists gets lookup compare_digests
    reads file calm e =
        bind_ok _ _ refl (bind_ok _ _ refl (rw e (bind_ok _ _ (content file calm e) refl)))

    document-Step : w.faults ≡ [] → Step w w (d ∷ []) r (check_document d r)
    document-Step calm = elim (Option-cases (lookup (abs_path w.root d.rel_path) w.files)) [
      | inl e ↦ missing-Step calm e
      | inr (file, e) ↦
          let s = found-Step file calm e in
          record {
            report = s.report;
            after = s.after;
            runs = reads file calm e ∙ s.runs;
            calm = s.calm;
            adds = s.adds;
          }
    ]

  pub check_all-Step :
      (docs : List Document) (r : SweepReport) (w : World)
      → w.faults ≡ []
      → Step w w docs r (check_all docs r)
  unfolding check_all pure
  check_all-Step [] r w calm = record {
    report = r;
    after = w;
    runs = refl;
    calm = record { no_faults = calm; same_root = refl; same_files = refl; same_mode = refl };
    adds = record {
      all_checked = omega arith;
      all_missing = omega arith;
      all_ok = omega arith;
      total = refl;
      all_problems = sym (append-nil r.problems);
    };
  }
  check_all-Step (d ∷ docs) r w calm =
      let one = document-Step w d r calm in
      let rest = check_all-Step docs one.report one.after one.calm.no_faults in
      record {
        report = rest.report;
        after = rest.after;
        runs = bind_ok _ _ one.runs rest.runs;
        calm = record {
          no_faults = rest.calm.no_faults;
          same_root = rest.calm.same_root ∙ one.calm.same_root;
          same_files = rest.calm.same_files ∙ one.calm.same_files;
          same_mode = rest.calm.same_mode ∙ one.calm.same_mode;
        };
        adds =
            Adds-cons w.root w.files d docs r one.report rest.report one.adds
              (Adds-moved w one.after docs one.report rest.report one.calm rest.adds);
      }
