-- ===== src/Core/Category.antt =====
-- crates/vault-core/src/lib.rs: `Category` and the names of its folders.
use ubod.Base.{String, ◌≡◌, refl, Option, none, some, Bool, true, ◌||◌, List, [], ◌∷◌, ◌↔◌, arith}
use ubod.Base.{HasEq, ◌==◌, nat_eq, string_eq, if◌then◌else◌, ℕ}

pub data Category : Type 0 where
  tesis expediente_profesor resolucion evaluacion : Category
  fotografia_documental material_grafico : Category

unfoldable pub dir_name : Category → String
dir_name tesis = "Tesis"
dir_name expediente_profesor = "Expediente_Profesor"
dir_name resolucion = "Resolucion"
dir_name evaluacion = "Evaluacion"
dir_name fotografia_documental = "Fotografia_Documental"
dir_name material_grafico = "Material_Grafico"

unfoldable pub from_dir_name : String → Option Category
from_dir_name s =
    if s == "Tesis" || s == "tesis"
    then some tesis
    else if s == "Expediente_Profesor" || s == "expediente_profesor"
    then some expediente_profesor
    else if s == "Resolucion" || s == "resolucion"
    then some resolucion
    else if s == "Evaluacion" || s == "evaluacion"
    then some evaluacion
    else if s == "FotografiaDocumental"
        || s == "Fotografia_Documental"
        || s == "fotografia_documental"
    then some fotografia_documental
    else if s == "MaterialGrafico" || s == "Material_Grafico" || s == "material_grafico"
    then some material_grafico
    else none

-- `Category::ALL`
abbrev pub all_categories : List Category
all_categories =
    tesis ∷ expediente_profesor ∷ resolucion ∷ evaluacion ∷ fotografia_documental ∷ material_grafico
    ∷ []

abbrev index : Category → ℕ
index tesis = 0
index expediente_profesor = 1
index resolucion = 2
index evaluacion = 3
index fotografia_documental = 4
index material_grafico = 5

abbrev pub category_beq : Category → Category → Bool
category_beq a b = index a == index b

pub category_beq_iff : (a b : Category) → (category_beq a b ≡ true) ↔ (a ≡ b)
category_beq_iff a b = ground arith

instance abbrev pub category_eq : HasEq Category
category_eq = record { equal = category_beq; equal_iff = category_beq_iff }

-- A folder name reads back as the category it was made from.
pub from_dir_name-dir_name : (c : Category) → from_dir_name (dir_name c) ≡ some c
unfolding from_dir_name dir_name
from_dir_name-dir_name tesis = refl
from_dir_name-dir_name expediente_profesor = refl
from_dir_name-dir_name resolucion = refl
from_dir_name-dir_name evaluacion = refl
from_dir_name-dir_name fotografia_documental = refl
from_dir_name-dir_name material_grafico = refl
