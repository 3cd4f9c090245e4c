-- ===== src/Examples/Core.antt =====
-- Examples for crates/vault-core/src/lib.rs.
use ubod.Base.{◌≡◌, refl, [], ◌∷◌}
use ubod.Base.Int.{pos, negsuc, ◌+ℤ◌, ◌*ℤ◌}
use ubod.Base.Text.{pad, hex, hex_encode}
use ubod.Core.Calendar.{civil_from_epoch, format_rfc3339}
use ubod.Core.Calendar.RoundTrip.{epoch_of, epoch_of-civil_from_epoch}
use ubod.Core.Ids.{new_id}

-- The tests of the repository.
epoch_zero : format_rfc3339 (pos 0) ≡ "1970-01-01T00:00:00Z"
unfolding format_rfc3339 ◌+ℤ◌ ◌*ℤ◌
epoch_zero = refl

epoch_of_the_statement : format_rfc3339 (pos 1790190827) ≡ "2026-09-23T19:13:47Z"
unfolding format_rfc3339 ◌+ℤ◌ ◌*ℤ◌
epoch_of_the_statement = refl

-- 32 characters, and not the 48 of the comment in the source.
new_id_text :
    new_id 0 (1 ∷ 2 ∷ 3 ∷ 4 ∷ 5 ∷ 6 ∷ 7 ∷ 8 ∷ 9 ∷ 255 ∷ []) ≡ "000000000000010203040506070809ff"
unfolding new_id pad hex hex_encode
new_id_text = refl

epoch_of-civil_from_epoch_example : epoch_of (civil_from_epoch (negsuc 86400)) ≡ negsuc 86400
epoch_of-civil_from_epoch_example = epoch_of-civil_from_epoch (negsuc 86400)
