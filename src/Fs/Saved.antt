-- ===== src/Fs/Saved.antt =====
-- What a `flush` that returns has done: crates/vault-store/src/lib.rs.
use ubod.Base.{some, ◌≡◌, refl}
use ubod.Base.Exec.{modify}
use ubod.Base.Exec.Yields.{Yields, Yields-raise, Yields-if, Yields-after}
use ubod.Base.Exec.Keeps.{Keeps-gets}
use ubod.Fs.World.{World, save_state, flush}
use ubod.Fs.Kept.{OnState, Keeps-call, Keeps-attempt}
use ubod.Store.State.{DbState, read_only, serde, crypto, io}

-- A property of the database in memory, which is what the file holds.
pub record Saved (P : DbState → Type 0) (w : World) : Type 0 where
  pub kept : P w.db.state
  pub saved : w.db.saved ≡ some w.db.state

module _ {P : DbState → Type 0} where
  Yields-save_state : Yields (OnState P) save_state (λ _. Saved P)
  unfolding save_state modify
  Yields-save_state = record { at = λ w h. record { kept = h.kept; saved = refl } }

  pub Yields-flush : Yields (OnState P) flush (λ _. Saved P)
  unfolding flush
  Yields-flush = Yields-after _ _ (Keeps-gets _) (λ locked.
      Yields-if locked _ _ (λ _. Yields-raise read_only)
        (λ _. Yields-after _ _ (Keeps-call serde) (λ _. Yields-after _ _ (Keeps-call crypto) (λ _.
          Yields-after _ _ (Keeps-call io) (λ _.
            Yields-after _ _ Keeps-attempt
              (λ _. Yields-after _ _ (Keeps-call io) (λ _. Yields-save_state)))))))
