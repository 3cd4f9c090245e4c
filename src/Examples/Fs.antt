-- ===== src/Examples/Fs.antt =====
-- Examples for crates/vault-fs/src/lib.rs.
use ubod.Base.{◌≡◌, refl}
use ubod.Base.Text.{is_whitespace}
use ubod.Fs.Paths.{sanitize_component, or_bar}
use ubod.Fs.Paths.Safe.{IsSafe, sanitize_component-IsSafe}
use ubod.Examples.{toy}

sanitized : sanitize_component "../etc/passwd" ≡ ".._etc_passwd"
unfolding sanitize_component or_bar is_whitespace
sanitized = refl

sanitize_component-IsSafe_example : IsSafe (sanitize_component "../../etc\n")
sanitize_component-IsSafe_example = sanitize_component-IsSafe "../../etc\n"
