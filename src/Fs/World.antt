-- ===== src/Fs/World.antt =====
-- What the services act on: the database, the files of the vault, the clock, the random numbers, and
-- the faults of the operating system. Each call that can fail takes one entry of `faults`: `true`
-- makes it fail, and an empty list is a system without faults.
use ubod.Base.{
  ℕ, ◌+◌, ◌*◌, String, Bool, true, false, Option, none, some, List, [], ◌∷◌, ◌==◌, string_eq,
  if◌then◌else◌,
}
use ubod.Base.Exec.{Exec, pure, raise, gets, modify, ok, ◌>>=◌, ◌>>◌}
use ubod.Base.Foreign.{Foreign}
use ubod.Base.Int.{pos}
use ubod.Core.Ids.{new_id}
use ubod.Core.Calendar.{format_rfc3339}
use ubod.Store.State.{VaultDb, DbState, StoreError}
use ubod.Store.Audit.{append_audit}

pub record File : Type 0 where
  pub bytes : List ℕ
  pub mode : ℕ
  pub immutable : Bool

pub record World : Type 0 where
  pub db : VaultDb
  pub root : String
  pub files : List (String × File)
  pub faults : List Bool
  pub now : ℕ
  pub drawn : ℕ

-- A map of paths to files.
module _ {ℓ} {V : Type ℓ} where
  unfoldable pub lookup : String → List (String × V) → Option V
  lookup k [] = none
  lookup k ((j, v) ∷ m) = if j == k then some v else lookup k m

  unfoldable pub without : String → List (String × V) → List (String × V)
  without k [] = []
  without k ((j, v) ∷ m) = let rest = without k m in if j == k then rest else (j, v) ∷ rest

  unfoldable pub insert : String → V → List (String × V) → List (String × V)
  insert k v m = (k, v) ∷ without k m

-- Whether the next call of the system succeeds.
unfoldable pub attempt : {E : Type 0} → Exec World E Bool
attempt w = elim w.faults [
  | [] ↦ (ok true, w)
  | true ∷ rest ↦ (ok false, record w { faults = rest })
  | false ∷ rest ↦ (ok true, record w { faults = rest })
]

unfoldable pub call : {E : Type 0} → E → Exec World E (Unit {0})
call e = do done ← attempt; if done then pure tt else raise e

unfoldable pub on_state : {E : Type 0} → (DbState → DbState) → Exec World E (Unit {0})
on_state g = modify λ w. record w { db = record w.db { state = g w.db.state } }

-- `now_rfc3339()`
unfoldable pub now_text : World → String
now_text w = format_rfc3339 (pos w.now)

-- `append_audit`, with the time of the clock; the hash that it gives back is not used.
unfoldable pub log :
    ⦃f : Foreign⦄ {E : Type 0} → String → String → String → String → Exec World E (Unit {0})
log actor action subject detail = modify λ w. record w {
  db = record w.db { state = (append_audit (now_text w) actor action subject detail w.db.state).1 };
}

-- The new file takes the place of the old.
unfoldable pub save_state : Exec World StoreError (Unit {0})
save_state = modify λ w. record w { db = record w.db { saved = some w.db.state } }

-- `VaultDb::flush`: serialise, encrypt, write beside, set the mode, rename over the old file.
unfoldable pub flush : Exec World StoreError (Unit {0})
flush = do
  read_only ← gets (λ w. w.db.read_only)
  if read_only then raise StoreError.read_only else do
    call StoreError.serde
    call StoreError.crypto
    call StoreError.io
    attempt
    call StoreError.io
    save_state

-- `new_id()`, with the clock and the next draw.
unfoldable pub fresh_id : ⦃f : Foreign⦄ {E : Type 0} → Exec World E String
fresh_id ⦃f⦄ w = (
  ok (new_id (w.now * 1000 + f.milliseconds w.drawn) (f.random_bytes w.drawn)),
  record w { drawn = w.drawn + 1 },
)
