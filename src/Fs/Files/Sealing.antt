-- ===== src/Fs/Files/Sealing.antt =====
-- What sealing and releasing a file do on a system without faults: crates/vault-fs/src/lib.rs.
use text.Mathlib.TextPositions.{eq_refl}
use ubod.Base.{
  ℕ, String, Bool, true, false, none, some, List, [], ◌∷◌, ◌≡◌, ◌≢◌, refl, arith, eq_iff, string_eq,
}
use ubod.Base.Exec.{Exec, Result, ok, pure, map_err, ◌>>=◌, modify}
use ubod.Fs.World.{World, File, lookup, without, insert, attempt, call}
use ubod.Fs.Files.{
  FsError, metadata, put_file, drop_file, open_file, check_target, may_replace, set_permissions,
  chattr_immutable, seal_file, unseal_file, rename_file,
}

module _ {ℓ} {V : Type ℓ} where
  pub lookup-without : (k : String) (m : List (String × V)) → lookup k (without k m) ≡ none
  unfolding lookup without
  lookup-without k [] = refl
  lookup-without k ((j, v) ∷ m) = ground (arith, lookup-without k m)

  pub lookup-without_other :
      (j k : String) (m : List (String × V)) → j ≢ k → lookup j (without k m) ≡ lookup j m
  unfolding lookup without
  lookup-without_other j k [] h = refl
  lookup-without_other j k ((i, v) ∷ m) h =
      ground (arith, lookup-without_other j k m h, eq_iff i k, eq_iff i j)

  pub lookup-insert :
      (k : String) (v : V) (m : List (String × V)) → lookup k (insert k v m) ≡ some v
  unfolding lookup insert
  lookup-insert k v m = rw (eq_refl k) refl

  pub lookup-insert_other :
      (j k : String) (v : V) (m : List (String × V)) → j ≢ k → lookup j (insert k v m) ≡ lookup j m
  unfolding lookup insert
  lookup-insert_other j k v m h = ground (arith, lookup-without_other j k m h, eq_iff k j)

-- The world with other files.
abbrev pub with_files : World → List (String × File) → World
with_files w fs = record w { files = fs }

abbrev pub sealed : File → File
sealed file = record file { mode = 288; immutable = true }

-- A step that succeeds, and what comes after it.
module _ {E A B : Type 0} {w w' : World} {a : A} {r : Result E B × World} (m : Exec World E A)
    (k : A → Exec World E B) where
  pub bind_ok : m w ≡ (ok a, w') → k a w' ≡ r → (m >>= k) w ≡ r
  unfolding ◌>>=◌
  bind_ok h rest = rw h rest

module _ {E F A : Type 0} {w w' : World} {a : A} (g : E → F) (m : Exec World E A) where
  pub map_err_ok : m w ≡ (ok a, w') → map_err g m w ≡ (ok a, w')
  unfolding map_err
  map_err_ok h = rw h

module _ {E : Type 0} (e : E) (w : World) (calm : w.faults ≡ []) where
  pub attempt_calm : attempt {E = E} w ≡ (ok true, w)
  unfolding attempt
  attempt_calm = rw calm

  pub call_calm : call e w ≡ (ok tt, w)
  unfolding call pure
  call_calm = bind_ok _ _ attempt_calm refl

  module _ (path : String) (file : File) (found : lookup path w.files ≡ some file) where
    pub metadata_calm : metadata e path w ≡ (ok file, w)
    unfolding metadata ◌>>=◌
    metadata_calm = rw (call_calm, found)

    pub open_file_calm : file.immutable ≡ false → open_file e path w ≡ (ok file, w)
    unfolding open_file pure
    open_file_calm free = bind_ok _ _ metadata_calm (rw free)

    pub set_permissions_calm :
        (mode : ℕ)
        → file.immutable ≡ false
        → set_permissions e path mode w
          ≡ (ok tt, with_files w (insert path (record file { mode = mode }) w.files))
    unfolding set_permissions put_file modify
    set_permissions_calm mode free = bind_ok _ _ (open_file_calm free) refl

    pub rename_file_calm :
        (dst : String)
        → file.immutable ≡ false
        → lookup dst w.files ≡ none
        → rename_file e path dst w ≡ (ok tt, with_files w (insert dst file (without path w.files)))
    unfolding rename_file put_file drop_file check_target may_replace ◌>>=◌
    rename_file_calm dst free absent = rw (open_file_calm free, absent)

module _ (w : World) (calm : w.faults ≡ []) (path : String) (file : File)
    (found : lookup path w.files ≡ some file) where
  pub chattr_calm :
      (on : Bool)
      → chattr_immutable path on w
        ≡ (ok tt, with_files w (insert path (record file { immutable = on }) w.files))
  unfolding chattr_immutable put_file modify
  chattr_calm on =
      bind_ok _ _ (metadata_calm FsError.io w calm path file found)
        (bind_ok _ _ (attempt_calm FsError.io w calm) refl)

module _ (w : World) (calm : w.faults ≡ []) (path : String) (file : File)
    (found : lookup path w.files ≡ some file) where
  pub seal_file_calm :
      file.immutable ≡ false
      → seal_file path w ≡ (
        ok tt,
        with_files w (insert path (sealed file) (insert path (record file { mode = 288 }) w.files)),
      )
  unfolding seal_file
  seal_file_calm free =
      let w' = with_files w (insert path (record file { mode = 288 }) w.files) in
      bind_ok _ _ (metadata_calm FsError.io w calm path file found) (
        bind_ok _ _ (set_permissions_calm FsError.io w calm path file found 288 free) (
          chattr_calm w' calm path (record file { mode = 288 }) (lookup-insert path _ w.files)
            true))

  pub unseal_file_calm : unseal_file path w ≡ (
    ok tt,
    with_files w (
        insert path
          (record file { mode = 384; immutable = false })
          (insert path (record file { immutable = false }) w.files)),
  )
  unfolding unseal_file
  unseal_file_calm =
      let w' = with_files w (insert path (record file { immutable = false }) w.files) in
      let found' = lookup-insert path (record file { immutable = false }) w.files in
      bind_ok _ _ (chattr_calm w calm path file found false) (
        bind_ok _ _ (metadata_calm FsError.io w' calm path _ found')
          (set_permissions_calm FsError.io w' calm path _ found' 384 refl))
