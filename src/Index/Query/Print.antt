-- ===== src/Index/Query/Print.antt =====
-- Queries written out in the grammar of `SearchQuery::parse`: crates/vault-index/src/lib.rs.
use mathlib.Core.List.{List}
use ubod.Base.{ℕ, String, Bool, true, not, ◌==◌, nat_eq, ◌≡◌, ◌≤◌}
use ubod.Base.Foreign.{Foreign, to_lowercase}
use ubod.Base.Text.{push_str, every, decimal}
use ubod.Core.Category.{dir_name}
use ubod.Core.Records.{IntegrityStatus}
use ubod.Index.Query.{
  SearchTerm, category, author, department, year, extension, integrity, text, file_name,
}

abbrev pub key_of : SearchTerm → String
key_of (category c) = "categoria"
key_of (author a) = "autor"
key_of (department d) = "departamento"
key_of (year y) = "anio"
key_of (extension e) = "extension"
key_of (integrity s) = "integridad"
key_of (text q) = "texto"
key_of (file_name n) = "nombre"

abbrev pub status_word : IntegrityStatus → String
status_word IntegrityStatus.ok = "verificada"
status_word IntegrityStatus.pending = "pendiente"
status_word IntegrityStatus.tampered = "manipulado"

abbrev pub value_of : SearchTerm → String
value_of (category c) = dir_name c
value_of (author a) = a
value_of (department d) = d
value_of (year y) = decimal y
value_of (extension e) = e
value_of (integrity s) = status_word s
value_of (text q) = q
value_of (file_name n) = n

-- `key:"value"`
abbrev pub quoted : String → String → String
quoted key value = push_str key (push_str ":\"" (push_str value "\""))

abbrev pub print_term : SearchTerm → String
print_term t = quoted (key_of t) (value_of t)

-- Keys and values with AND between them.
abbrev pub written : List (String × String) → String
written List.[] = ""
written (List.◌∷◌ (k, v) List.[]) = quoted k v
written (List.◌∷◌ (k, v) (List.◌∷◌ p ps)) =
    push_str (quoted k v) (push_str " AND " (written (List.◌∷◌ p ps)))

abbrev pub pairs : List SearchTerm → List (String × String)
pairs List.[] = List.[]
pairs (List.◌∷◌ t ts) = List.◌∷◌ (key_of t, value_of t) (pairs ts)

abbrev pub print_query : List SearchTerm → String
print_query ts = written (pairs ts)

abbrev pub no_quote : ℕ → Bool
no_quote c = not (c == b'"')

-- The texts that a query can ask for: in lower case, and without a quotation mark.
module _ ⦃f : Foreign⦄ where
  pub record IsPlain (s : String) : Type 0 where
    pub unquoted : every no_quote s ≡ true
    pub lowered : to_lowercase s ≡ s

  abbrev pub IsPrintable : SearchTerm → Type 0
  IsPrintable (category c) = Unit
  IsPrintable (author a) = IsPlain a
  IsPrintable (department d) = IsPlain d
  IsPrintable (year y) = y ≤ 65535
  IsPrintable (extension e) = IsPlain e
  IsPrintable (integrity s) = Unit
  IsPrintable (text q) = IsPlain q
  IsPrintable (file_name n) = IsPlain n

  abbrev pub AllPrintable : List SearchTerm → Type 0
  AllPrintable List.[] = Unit
  AllPrintable (List.◌∷◌ t ts) = IsPrintable t × AllPrintable ts
