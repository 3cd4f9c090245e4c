-- ===== src/Fs/Files.antt =====
-- crates/vault-fs/src/lib.rs: sealing, the supervised release of a seal, the two ways a document is
-- installed, and the wipe; with the calls of the system they make.
pub mod Sealing
pub mod Wiping
use ubod.Base.{
  ℕ, ◌+◌, ◌-◌, String, append, Bool, true, false, ◌&&◌, Option, none, some, List, [], ◌∷◌, map,
  if◌then◌else◌, bit_and, ◌==◌, nat_eq, ◌||◌, ◌≡◌, any, Option-cases, inl, inr, arith,
}
use ubod.Base.Text.{starts_with, ends_with}
use ubod.Base.Exec.{Exec, pure, raise, gets, modify, or_raise, ok, err, ◌>>=◌, ◌>>◌}
use ubod.Fs.Paths.{abs_path}
use ubod.Fs.World.{World, File, lookup, without, insert, attempt, call}

pub data FsError : Type 0 where
  io : FsError
  immutable : String → FsError

-- Calls of the system, with the error that a failure is turned into. The kernel lets nobody write,
-- rename, remove or change the mode of an immutable file.
module _ {E : Type 0} (e : E) where
  unfoldable pub metadata : String → Exec World E File
  metadata path = do call e; found ← gets (λ w. lookup path w.files); or_raise found e

  unfoldable pub put_file : String → File → Exec World E (Unit {0})
  put_file path file = modify λ w. record w { files = insert path file w.files }

  unfoldable pub drop_file : String → Exec World E (Unit {0})
  drop_file path = modify λ w. record w { files = without path w.files }

  -- A file that may be changed.
  unfoldable pub open_file : String → Exec World E File
  open_file path = do file ← metadata path; if file.immutable then raise e else pure file

  -- The target of a write: nothing, or a file that may be changed.
  unfoldable pub may_replace : Option File → Exec World E (Unit {0})
  may_replace none = pure tt
  may_replace (some file) = if file.immutable then raise e else pure tt

  unfoldable pub check_target : String → Exec World E (Unit {0})
  check_target path = do found ← gets (λ w. lookup path w.files); may_replace found

  unfoldable pub set_permissions : String → ℕ → Exec World E (Unit {0})
  set_permissions path mode = do file ← open_file path; put_file path (record file { mode = mode })

  unfoldable pub read_file : String → Exec World E (List ℕ)
  read_file path = do file ← metadata path; pure file.bytes

  -- `std::fs::write`; a new file has the mode 0644 that the usual mask leaves.
  unfoldable pub write_file : String → List ℕ → Exec World E (Unit {0})
  write_file path content = do
    call e
    check_target path
    put_file path (record { bytes = content; mode = 420; immutable = false })

  unfoldable pub rename_file : String → String → Exec World E (Unit {0})
  rename_file src dst = do file ← open_file src; check_target dst; drop_file src; put_file dst file

  -- `std::fs::copy`, which copies the mode too
  unfoldable pub copy_file : String → String → Exec World E (Unit {0})
  copy_file src dst = do
    file ← metadata src
    check_target dst
    put_file dst (record file { immutable = false })

  unfoldable pub remove_file : String → Exec World E (Unit {0})
  remove_file path = do open_file path; drop_file path

-- `exists()` of the path of a document, which names a file
unfoldable pub exists : String → World → Bool
exists path w = elim (lookup path w.files) [ none ↦ false | some file ↦ true ]

-- A path that ends in `.` or `..`, or that has a file below it. Empty directories are not kept.
abbrev pub is_directory : String → List (String × File) → Bool
is_directory path files =
    ends_with "/." path
    || ends_with "/.." path
    || any (λ entry. starts_with (append path "/") entry.0) files

-- `exists()` of the path that a file is to get, where a directory may be
unfoldable pub is_taken : String → List (String × File) → Bool
is_taken path files = elim (lookup path files) [ none ↦ is_directory path files | some file ↦ true ]

pub is_taken-lookup :
    (path : String) (files : List (String × File))
    → is_taken path files ≡ false
    → lookup path files ≡ none
unfolding is_taken
is_taken-lookup path files h = elim (Option-cases (lookup path files)) [
  | inl absent ↦ absent
  | inr (file, there) ↦ absurd (ground (arith, h, there))
]

-- The `ioctl` of `chattr_immutable` may fail: that is a warning and no error.
unfoldable pub chattr_immutable : String → Bool → Exec World FsError (Unit {0})
chattr_immutable path on = do
  file ← metadata FsError.io path
  done ← attempt
  if done then put_file FsError.io path (record file { immutable = on }) else pure tt

unfoldable pub seal_file : String → Exec World FsError (Unit {0})
seal_file path = do
  metadata FsError.io path
  set_permissions FsError.io path 288
  chattr_immutable path true

unfoldable pub unseal_file : String → Exec World FsError (Unit {0})
unseal_file path = do
  chattr_immutable path false
  metadata FsError.io path
  set_permissions FsError.io path 384

-- `prepare_parent`: `create_dir_all`, and the directory's mode read and perhaps set.
unfoldable pub prepare_parent : String → Exec World FsError String
prepare_parent rel = do
  call FsError.io
  call FsError.io
  root ← gets (λ w. w.root)
  pure (abs_path root rel)

-- `install_sealed`
unfoldable pub install_sealed : String → List ℕ → Exec World FsError String
install_sealed rel content = do
  dest ← prepare_parent rel
  taken ← gets (λ w. is_taken dest w.files)
  if taken then raise FsError.io else do
    write_file FsError.io dest content
    set_permissions FsError.io dest 384
    seal_file dest
    pure dest

-- How a `rename` may end: done, on another file system (the errors 18 and 17), or with another error.
-- The call on one file system is `rename_file`; `other_device` says that staging is elsewhere.
unfoldable pub move_staged : Bool → String → String → Exec World FsError (Unit {0})
move_staged other_device staged dest =
    if other_device
    then (do copy_file FsError.io staged dest; λ w. (ok tt, (remove_file FsError.io staged w).1))
    else rename_file FsError.io staged dest

unfoldable pub install_staged : Bool → String → String → Exec World FsError String
install_staged other_device rel staged = do
  dest ← prepare_parent rel
  taken ← gets (λ w. is_taken dest w.files)
  if taken then raise FsError.io else do
    move_staged other_device staged dest
    set_permissions FsError.io dest 384
    seal_file dest
    pure dest

-- `secure_wipe`: what each of the three passes writes over the whole file. The third pass takes
-- random bytes, here `noise`, one buffer of 64 KiB used again for each chunk.
abbrev pub overwritten : List ℕ → (ℕ → ℕ) → ℕ → List ℕ
overwritten [] g i = []
overwritten (b ∷ bs) g i = g i ∷ overwritten bs g (i + 1)

unfoldable pub wipe_pass : String → (ℕ → ℕ) → Exec World FsError (Unit {0})
wipe_pass path g = do
  file ← open_file FsError.io path
  put_file FsError.io path (record file { bytes = overwritten file.bytes g 0 })
  call FsError.io

unfoldable pub secure_wipe : (ℕ → ℕ) → String → Exec World FsError (Unit {0})
secure_wipe noise path = do
  open_file FsError.io path
  wipe_pass path (λ _. 0)
  wipe_pass path (λ _. 255)
  call FsError.io
  wipe_pass path noise
  remove_file FsError.io path
