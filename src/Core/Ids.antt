-- ===== src/Core/Ids.antt =====
-- crates/vault-core/src/lib.rs: `new_id` and `is_sha256_hex`.
use ubod.Base.{ℕ, String, append, Bool, ◌&&◌, List, ◌==◌, nat_eq, all, length}
use ubod.Base.Text.{hex, pad, hex_encode, as_bytes, is_ascii_hexdigit}

-- The milliseconds of the clock in twelve hex digits, then ten random bytes.
unfoldable pub new_id : ℕ → List ℕ → String
new_id ms rnd = append (pad 12 (hex ms)) (hex_encode rnd)

unfoldable pub is_sha256_hex : String → Bool
is_sha256_hex s = (length (as_bytes s) == 64) && all is_ascii_hexdigit (as_bytes s)
