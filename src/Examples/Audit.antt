-- ===== src/Examples/Audit.antt =====
-- Examples for crates/vault-audit/src/lib.rs.
use ubod.Base.{◌≡◌, refl}
use ubod.Base.Exec.{ok}
use ubod.Fs.World.{World}
use ubod.Audit.{SweepReport, sweep}
use ubod.Audit.Report.{Counted, sweep_report}
use ubod.Examples.{toy, a_world}

sweep_report_example :
    (r : SweepReport) × (w' : World) × (sweep a_world ≡ (ok r, w'))
    × (w'.files ≡ a_world.files)
    × Counted a_world r
sweep_report_example = sweep_report a_world refl refl
