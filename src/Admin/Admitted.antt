-- ===== src/Admin/Admitted.antt =====
-- Properties of the database that `admit` keeps: crates/vault-admin/src/lib.rs.
use ubod.Base.{String, Option, none, some, List, ℕ}
use ubod.Base.Exec.Keeps.{Keeps, keeps_rules}
use ubod.Base.Foreign.{Foreign}
use ubod.Core.Category.{Category}
use ubod.Core.Records.{Submission, AdmissionState}
use ubod.Fs.World.{log}
use ubod.Fs.Kept.{OnState, world_rules}
use ubod.Index.Rules.{Ruleset}
use ubod.Store.State.{DbState}
use ubod.Admin.Kept.{OnVault, Keeps-logged, Keeps-decision, Keeps-on_vault, Keeps-discard}
use ubod.Admin.Sealing.{SealOutcome, sealed, duplicate, Outside}
use ubod.Admin.Admit.{
  reclassify, mark, settle, refuse_changed, admit_file, admit_content, admit_pending, admit_in,
  admit,
}
use ubod.Admin.Sealed.{IsCustody, Keeps-seal_document}

module _ ⦃f : Foreign⦄ {P : DbState → Type 0} (k : IsCustody P) where
  Keeps-noted : {E : Type 0} (a b c d : String) → Keeps {E = E} (OnState P) (log a b c d)
  Keeps-noted = Keeps-logged k.kept.apart

  Keeps-reclassify :
      (actor : String) (sub : Submission) (c : Option Category)
      → Keeps (OnState P) (reclassify actor sub c)
  unfolding reclassify
  Keeps-reclassify actor sub none = search keeps_rules
  Keeps-reclassify actor sub (some decided) = search (keeps_rules, Keeps-noted)

  Keeps-mark : (id : String) (new : AdmissionState) → Keeps (OnState P) (mark id new)
  unfolding mark
  Keeps-mark id new = search (keeps_rules, Keeps-decision k.kept)

  Keeps-settle :
      (id actor path : String) (outcome : SealOutcome)
      → Keeps (OnState P) (settle id actor path outcome)
  unfolding settle
  Keeps-settle id actor path (duplicate existing sha256 blake3) =
      search (world_rules, Keeps-mark, Keeps-noted, Keeps-discard) depth 14
  Keeps-settle id actor path (sealed doc) = search (world_rules, Keeps-mark) depth 12

  Keeps-refuse_changed :
      (actor : String) (sub : Submission) → Keeps (OnState P) (refuse_changed actor sub)
  unfolding refuse_changed
  Keeps-refuse_changed actor sub = search (world_rules, Keeps-noted) depth 12

  module _ (out : Outside) (rules : Ruleset) where
    Keeps-admit_file :
        (id actor : String) (sub : Submission) (path : String)
        → Keeps (OnState P) (admit_file out rules id actor sub path)
    unfolding admit_file
    Keeps-admit_file id actor sub path =
        search (keeps_rules, Keeps-reclassify, Keeps-seal_document k, Keeps-settle) depth 12

    Keeps-admit_content :
        (id actor : String) (sub : Submission) (path : String) (content : List ℕ)
        → Keeps (OnState P) (admit_content out rules id actor sub path content)
    unfolding admit_content
    Keeps-admit_content id actor sub path content =
        search (keeps_rules, Keeps-admit_file, Keeps-refuse_changed)

    Keeps-admit_pending :
        (id actor : String) (sub : Submission)
        → Keeps (OnState P) (admit_pending out rules id actor sub)
    unfolding admit_pending
    Keeps-admit_pending id actor sub = search (world_rules, Keeps-admit_content) depth 12

    Keeps-admit_in : (id actor : String) → Keeps (OnState P) (admit_in out rules id actor)
    unfolding admit_in
    Keeps-admit_in id actor = search (keeps_rules, Keeps-admit_pending)

    pub Keeps-admit : (id actor : String) → Keeps (OnVault P) (admit out rules id actor)
    unfolding admit
    Keeps-admit id actor = Keeps-on_vault _ _ (Keeps-admit_in id actor)
