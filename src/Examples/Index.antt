-- ===== src/Examples/Index.antt =====
-- Examples for crates/vault-index/src/lib.rs, some of them tests of the repository.
use Prim.Native.String.{len}
use ubod.Base.{List, [], ◌∷◌, some, none, ◌≡◌, refl, ◌≤◌, arith}
use ubod.Base.Foreign.{to_lowercase, ascii_lowercase}
use ubod.Base.Text.{
  is_whitespace, trim, split_once, trim_matches, parse_unsigned, contains, starts_with, split_on,
  eq_ignore_ascii_case,
}
use ubod.Core.Category.{tesis, resolucion, expediente_profesor, from_dir_name}
use ubod.Core.Records.{IntegrityStatus}
use ubod.Index.Query.{
  SearchTerm, category, author, department, year, extension, integrity, text, segments, parts,
  is_connector, split_and, term_of, parse_part, parse_parts, parse,
}
use ubod.Index.Query.Print.{print_query, IsPlain}
use ubod.Index.Query.RoundTrip.{parse-print_query}
use ubod.Index.Rules.{classify, first_category, extension_of, default_ruleset}
use ubod.Index.Text.{max_indexed_text, concat_parts, xml_to_text, collapse_ws}
use ubod.Index.Text.Bounds.{len-concat_parts}
use ubod.Index.Text.Escapes.{escape, xml_to_text-escape}
use ubod.Examples.{toy}

parse_test :
    parse
      "categoria:Tesis AND departamento:\"Ingenieria civil\" AND year:2026 y extension:pdf AND integridad:ok"
    ≡ record {
      terms =
          category tesis
          ∷ department "ingenieria civil"
          ∷ year 2026
          ∷ extension "pdf"
          ∷ integrity IntegrityStatus.ok
          ∷ [];
    }
unfolding parse split_and segments parts is_connector term_of parse_part parse_parts to_lowercase
    ascii_lowercase is_whitespace trim split_once trim_matches parse_unsigned from_dir_name
parse_test = refl

abbrev asked : List SearchTerm
asked = text "actas y and: c" ∷ year 2026 ∷ author "ana" ∷ []

IsPlain-text : IsPlain "actas y and: c"
unfolding to_lowercase ascii_lowercase
IsPlain-text = record { unquoted = refl; lowered = refl }

IsPlain-author : IsPlain "ana"
unfolding to_lowercase ascii_lowercase
IsPlain-author = record { unquoted = refl; lowered = refl }

parse-print_query_example : parse (print_query asked) ≡ record { terms = asked }
parse-print_query_example =
    parse-print_query asked (IsPlain-text, (omega arith, (IsPlain-author, tt)))

classify_tests :
    (classify default_ruleset "Tesis_Ingenieria_2026_Nicolas.pdf" ≡ some tesis)
    × (classify default_ruleset "expediente_ana.pdf" ≡ some expediente_profesor)
    × (classify default_ruleset "Resolucion_101_2026.pdf" ≡ some resolucion)
    × (classify default_ruleset "notas.txt" ≡ none)
unfolding classify first_category extension_of to_lowercase ascii_lowercase contains starts_with
    split_on eq_ignore_ascii_case from_dir_name
classify_tests = (refl, refl, refl, refl)

len-concat_parts_example : len (concat_parts "" ("<a>uno</a>" ∷ "dos" ∷ [])) ≤ max_indexed_text
len-concat_parts_example = len-concat_parts "" ("<a>uno</a>" ∷ "dos" ∷ []) (omega arith)

xml_to_text-escape_example : xml_to_text (escape " a < b &  c") ≡ collapse_ws " a < b &  c"
xml_to_text-escape_example = xml_to_text-escape " a < b &  c"
