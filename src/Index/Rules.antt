-- ===== src/Index/Rules.antt =====
-- crates/vault-index/src/lib.rs: the rules that classify a file by its name.
use mathlib.Core.List.{List}
use ubod.Base.{String, Bool, string_eq, if◌then◌else◌, Option, none, some, any}
use ubod.Base.Foreign.{Foreign, to_lowercase}
use ubod.Base.Text.{contains, split_on, eq_ignore_ascii_case}
use ubod.Core.Category.{Category, from_dir_name}

pub record Rule : Type 0 where
  pub category : String
  pub extensions : List String
  pub filename_contains : List String

pub record Ruleset : Type 0 where
  pub rule : List Rule

abbrev last_of : String → List String → String
last_of s List.[] = s
last_of s (List.◌∷◌ p ps) = last_of p ps

-- `rsplit('.').next()`: the whole name where there is no dot.
unfoldable pub extension_of : String → String
extension_of lower = last_of "" (split_on b'.' lower)

-- One pass: the first rule that hits and whose category exists.
unfoldable pub first_category : (Rule → Bool) → List Rule → Option Category
first_category hits List.[] = none
first_category hits (List.◌∷◌ r rs) =
    let rest = first_category hits rs in
    if hits r then elim (from_dir_name r.category) [ none ↦ rest | some c ↦ some c ] else rest

abbrev pub or_else {ℓ} : {A : Type ℓ} → Option A → Option A → Option A
or_else (some a) o = some a
or_else none o = o

abbrev pub has_extension : String → Rule → Bool
has_extension lower r = any (λ e. eq_ignore_ascii_case e (extension_of lower)) r.extensions

module _ ⦃f : Foreign⦄ where
  abbrev pub has_pattern : String → Rule → Bool
  has_pattern lower r = any (λ p. contains (to_lowercase p) lower) r.filename_contains

  -- The patterns of all rules go before the extensions of any.
  unfoldable pub classify : Ruleset → String → Option Category
  classify rules file_name =
      let lower = to_lowercase file_name in
      or_else (first_category (has_pattern lower) rules.rule)
        (first_category (has_extension lower) rules.rule)

abbrev rule_of : String → List String → List String → Rule
rule_of c es ps = record { category = c; extensions = es; filename_contains = ps }

-- `Ruleset::default_ruleset`
abbrev pub default_ruleset : Ruleset
default_ruleset = record {
  rule =
      List.◌∷◌
        (rule_of "Tesis"
          (List.◌∷◌ "pdf" (List.◌∷◌ "docx" (List.◌∷◌ "doc" (List.◌∷◌ "odt" List.[]))))
          (List.◌∷◌ "tesis" (List.◌∷◌ "thesis" List.[])))
        (List.◌∷◌
          (rule_of "Expediente_Profesor" List.[] (
            List.◌∷◌ "expediente"
              (List.◌∷◌ "curriculum" (List.◌∷◌ "cv_" (List.◌∷◌ "hoja_de_vida" List.[])))))
          (List.◌∷◌
            (rule_of "Resolucion" (List.◌∷◌ "pdf" List.[]) (
              List.◌∷◌ "resolucion"
                (List.◌∷◌ "resolución" (List.◌∷◌ "acuerdo" (List.◌∷◌ "dictamen" List.[])))))
            (List.◌∷◌
              (rule_of "Evaluacion" List.[] (
                List.◌∷◌ "evaluacion" (
                  List.◌∷◌ "evaluación" (
                    List.◌∷◌ "calificacion" (
                      List.◌∷◌ "calificaciones" (
                        List.◌∷◌ "rubrica"
                          (List.◌∷◌ "rúbrica" (List.◌∷◌ "acta_de_examen" List.[]))))))))
              (List.◌∷◌
                (rule_of "Fotografia_Documental"
                  (List.◌∷◌ "jpg"
                    (List.◌∷◌ "jpeg" (List.◌∷◌ "png" (List.◌∷◌ "heic" (List.◌∷◌ "webp" List.[])))))
                  (List.◌∷◌ "foto" (List.◌∷◌ "minuta" (List.◌∷◌ "pizarra" List.[]))))
                (List.◌∷◌
                  (rule_of "Material_Grafico"
                    (List.◌∷◌ "svg" (List.◌∷◌ "pptx" (List.◌∷◌ "drawio" (List.◌∷◌ "pdf" List.[]))))
                    (List.◌∷◌ "diagrama" (
                      List.◌∷◌ "presentacion"
                        (List.◌∷◌ "presentación" (List.◌∷◌ "poster" List.[])))))
                  List.[])))));
}
