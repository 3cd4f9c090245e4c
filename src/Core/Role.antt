-- ===== src/Core/Role.antt =====
-- crates/vault-core/src/lib.rs: `Role` and the permission matrix.
use ubod.Base.{String, Bool, true, false, ◌||◌, List, [], ◌∷◌}

pub data Role : Type 0 where
  docente administrativo coordinacion director : Role

-- `Role::ALL`
abbrev pub all_roles : List Role
all_roles = docente ∷ administrativo ∷ coordinacion ∷ director ∷ []

unfoldable pub label : Role → String
label docente = "Docente"
label administrativo = "Administrativo"
label coordinacion = "Coordinación"
label director = "Director"

unfoldable pub can_view : Role → Bool
can_view r = true

unfoldable pub can_rename_or_move : Role → Bool
can_rename_or_move administrativo = true
can_rename_or_move _ = false

unfoldable pub can_soft_delete : Role → Bool
can_soft_delete administrativo = true
can_soft_delete _ = false

unfoldable pub can_restore : Role → Bool
can_restore administrativo = true
can_restore _ = false

unfoldable pub can_edit_meta : Role → Bool
can_edit_meta administrativo = true
can_edit_meta coordinacion = true
can_edit_meta _ = false

unfoldable pub versions_on_edit : Role → Bool
versions_on_edit coordinacion = true
versions_on_edit _ = false

unfoldable pub can_audit : Role → Bool
can_audit coordinacion = true
can_audit director = true
can_audit _ = false

unfoldable pub can_import : Role → Bool
unfolding can_rename_or_move can_edit_meta
can_import r = can_rename_or_move r || can_edit_meta r
