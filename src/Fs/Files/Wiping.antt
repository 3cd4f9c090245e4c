-- ===== src/Fs/Files/Wiping.antt =====
-- What writing a new file and wiping one do on a system without faults: crates/vault-fs/src/lib.rs.
use ubod.Base.{ℕ, String, false, none, some, List, [], ◌≡◌, refl}
use ubod.Base.Exec.{ok, pure, gets, modify}
use ubod.Fs.World.{World, File, lookup, without, insert}
use ubod.Fs.Files.{
  FsError, overwritten, wipe_pass, secure_wipe, remove_file, write_file, put_file, drop_file,
  check_target, may_replace,
}
use ubod.Fs.Files.Sealing.{bind_ok, call_calm, open_file_calm, with_files, lookup-insert}

-- A file that `std::fs::write` makes.
abbrev pub written : List ℕ → File
written content = record { bytes = content; mode = 420; immutable = false }

pub write_file_calm :
    {E : Type 0} (e : E) (w : World) (path : String) (content : List ℕ)
    → w.faults ≡ []
    → lookup path w.files ≡ none
    → write_file e path content w ≡ (ok tt, with_files w (insert path (written content) w.files))
unfolding write_file put_file check_target may_replace modify pure gets
write_file_calm e w path content calm absent =
    bind_ok _ _ (call_calm e w calm) (bind_ok _ _ (bind_ok _ _ refl (rw absent refl)) refl)

abbrev scrubbed : (ℕ → ℕ) → File → File
scrubbed g file = record file { bytes = overwritten file.bytes g 0 }

module _ (w : World) (calm : w.faults ≡ []) (path : String) (file : File)
    (found : lookup path w.files ≡ some file) (free : file.immutable ≡ false) where
  pub wipe_pass_calm :
      (g : ℕ → ℕ)
      → wipe_pass path g w ≡ (ok tt, with_files w (insert path (scrubbed g file) w.files))
  unfolding wipe_pass put_file modify
  wipe_pass_calm g =
      bind_ok _ _ (open_file_calm FsError.io w calm path file found free)
        (bind_ok _ _ refl (call_calm FsError.io _ calm))

  pub remove_file_calm :
      remove_file FsError.io path w ≡ (ok tt, with_files w (without path w.files))
  unfolding remove_file drop_file modify
  remove_file_calm = bind_ok _ _ (open_file_calm FsError.io w calm path file found free) refl

-- The files just before the wiped one is removed.
abbrev pub passes : (ℕ → ℕ) → String → File → List (String × File) → List (String × File)
passes noise path file files =
    let zeros = scrubbed (λ _. 0) file in
    let ones = scrubbed (λ _. 255) zeros in
    insert path (scrubbed noise ones) (insert path ones (insert path zeros files))

pub secure_wipe_calm :
    (noise : ℕ → ℕ) (w : World) (path : String) (file : File)
    → w.faults ≡ []
    → lookup path w.files ≡ some file
    → file.immutable ≡ false
    → secure_wipe noise path w
      ≡ (ok tt, with_files w (without path (passes noise path file w.files)))
unfolding secure_wipe
secure_wipe_calm noise w path file calm found free =
    let zeros = scrubbed (λ _. 0) file in
    let ones = scrubbed (λ _. 255) zeros in
    let w1 = with_files w (insert path zeros w.files) in
    let w2 = with_files w1 (insert path ones w1.files) in
    let w3 = with_files w2 (insert path (scrubbed noise ones) w2.files) in
    bind_ok _ _ (open_file_calm FsError.io w calm path file found free) (
      bind_ok _ _ (wipe_pass_calm w calm path file found free (λ _. 0)) (
        bind_ok _ _
          (wipe_pass_calm w1 calm path zeros (lookup-insert path zeros w.files) free (λ _. 255))
          (bind_ok _ _ (call_calm FsError.io w2 calm) (
            bind_ok _ _
              (wipe_pass_calm w2 calm path ones (lookup-insert path ones w1.files) free noise)
              (remove_file_calm w3 calm path _ (lookup-insert path _ w2.files) free)))))
