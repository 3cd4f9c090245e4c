-- ===== src/Audit/Adds.antt =====
-- What a part of a sweep adds to the report: crates/vault-audit/src/lib.rs.
use mathlib.Core.List.{append_assoc}
use ubod.Base.{
  ◌+◌, String, Bool, true, false, not, ◌&&◌, Option, none, some, List, [], ◌∷◌, ◌++◌, map, ◌≡◌,
  refl, ap, subst, ◌∙◌, arith, length, keep, ◌==◌, string_eq, if◌then◌else◌,
}
use ubod.Base.Exec.{Exec, ok, ◌>>=◌}
use ubod.Base.Foreign.{Foreign}
use ubod.Core.Records.{Document, status_eq}
use ubod.Fs.World.{World, File, lookup, flush, call, attempt, save_state}
use ubod.Fs.Paths.{abs_path}
use ubod.Audit.{AuditError, SweepReport}

problems-cons :
    (bad : Document → Bool) (d : Document) (docs : List Document)
    → map (λ (d : Document). d.vault_id) (keep bad (d ∷ []))
        ++ map (λ (d : Document). d.vault_id) (keep bad docs)
      ≡ map (λ (d : Document). d.vault_id) (keep bad (d ∷ docs))
problems-cons bad d docs = go (bad d)
  where
    go :
        (b : Bool)
        → map (λ (d : Document). d.vault_id) (if b then d ∷ [] else [])
            ++ map (λ (d : Document). d.vault_id) (keep bad docs)
          ≡ map (λ (d : Document). d.vault_id) (if b then d ∷ keep bad docs else keep bad docs)
    go true = refl
    go false = refl

pub flush_calm :
    (w : World)
    → w.faults ≡ []
    → w.db.read_only ≡ false
    → flush w ≡ (ok tt, record w { db = record w.db { saved = some w.db.state } })
unfolding flush save_state call attempt ◌>>=◌
flush_calm w calm writable = rw (writable, calm)

module _ ⦃f : Foreign⦄ where
  -- The state of a document's file: absent, or with the digests that the index has.
  abbrev absent : Option File → Bool
  absent none = true
  absent (some file) = false

  abbrev pub is_gone : String → List (String × File) → Document → Bool
  is_gone root files d = absent (lookup (abs_path root d.rel_path) files)

  abbrev pub same_digests : Document → Option File → Bool
  same_digests d none = false
  same_digests d (some file) =
      (f.sha256 file.bytes == d.sha256) && (f.blake3 file.bytes == d.blake3)

  abbrev pub is_intact : String → List (String × File) → Document → Bool
  is_intact root files d = same_digests d (lookup (abs_path root d.rel_path) files)

  -- The report `r'` adds what the documents are to the report `r`.
  pub record Adds (root : String) (files : List (String × File)) (docs : List Document)
      (r r' : SweepReport) : Type 0 where
    pub all_checked : r'.checked ≡ r.checked + length docs
    pub all_missing : r'.missing ≡ r.missing + length (keep (is_gone root files) docs)
    pub all_ok : r'.ok ≡ r.ok + length (keep (is_intact root files) docs)
    pub total :
        r'.checked + (r.ok + r.missing + r.tampered)
        ≡ r.checked + (r'.ok + r'.missing + r'.tampered)
    pub all_problems :
        r'.problems
        ≡ r.problems
          ++ map (λ (d : Document). d.vault_id) (keep (λ d. not (is_intact root files d)) docs)

  -- The world after a step of a sweep without faults: only the database has changed.
  pub record Calm (w w' : World) : Type 0 where
    pub no_faults : w'.faults ≡ []
    pub same_root : w'.root ≡ w.root
    pub same_files : w'.files ≡ w.files
    pub same_mode : w'.db.read_only ≡ w.db.read_only

  -- A step that succeeds.
  pub record Step (w w0 : World) (docs : List Document) (r : SweepReport)
      (m : Exec World AuditError SweepReport) : Type 0 where
    pub report : SweepReport
    pub after : World
    pub runs : m w ≡ (ok report, after)
    pub calm : Calm w0 after
    pub adds : Adds w0.root w0.files docs r report

  -- The parts of a sweep add up.
  pub Adds-cons :
      (root : String) (files : List (String × File)) (d : Document) (docs : List Document)
      (a b c : SweepReport)
      → Adds root files (d ∷ []) a b
      → Adds root files docs b c
      → Adds root files (d ∷ docs) a c
  Adds-cons root files d docs a b c h k = record {
    all_checked = omega (arith, h.all_checked, k.all_checked);
    all_missing = ground (arith, h.all_missing, k.all_missing);
    all_ok = ground (arith, h.all_ok, k.all_ok);
    total = omega (arith, h.total, k.total);
    all_problems =
        let bad = λ (d : Document). not (is_intact root files d) in
        let ids = λ (ds : List Document). map (λ (d : Document). d.vault_id) ds in
        k.all_problems
        ∙ ap (λ ps. ps ++ ids (keep bad docs)) h.all_problems
        ∙ append_assoc a.problems (ids (keep bad (d ∷ []))) (ids (keep bad docs))
        ∙ ap (λ ps. a.problems ++ ps) (problems-cons bad d docs);
  }

  pub Adds-moved :
      (w w' : World) (docs : List Document) (r r' : SweepReport)
      → Calm w w'
      → Adds w'.root w'.files docs r r'
      → Adds w.root w.files docs r r'
  Adds-moved w w' docs r r' c h =
      subst (λ root. Adds root w.files docs r r') c.same_root
        (subst (λ files. Adds w'.root files docs r r') c.same_files h)
