-- ===== src/Index/Query.antt =====
-- crates/vault-index/src/lib.rs: the queries of the search, `SearchQuery`, and `search`.
pub mod Segments
pub mod Print
pub mod RoundTrip
use Prim.Native.Char.{Char, code}
use Prim.Native.String.{[], ◌∷◌}
use mathlib.Core.List.{List}
use ubod.Base.{
  ℕ, String, Bool, true, false, not, ◌&&◌, ◌||◌, ◌==◌, nat_eq, string_eq, if◌then◌else◌, Option,
  none, some, all, keep,
}
use ubod.Base.Foreign.{Foreign, to_lowercase}
use ubod.Base.Text.{
  push_str, is_empty, is_whitespace, trim, split_once, trim_matches, contains, parse_unsigned,
  eq_ignore_ascii_case,
}
use ubod.Core.Category.{Category, from_dir_name, category_eq}
use ubod.Core.Records.{Document, IntegrityStatus, status_eq}
use ubod.Store.Documents.{get_text}
use ubod.Store.State.{DbState}

pub data SearchTerm : Type 0 where
  category : Category → SearchTerm
  author department : String → SearchTerm
  year : ℕ → SearchTerm
  extension : String → SearchTerm
  integrity : IntegrityStatus → SearchTerm
  text file_name : String → SearchTerm

pub record SearchQuery : Type 0 where
  pub terms : List SearchTerm

-- The first loop of `split_and`: the state is whether it is in quotes, and the segment so far.
abbrev pub add_part : String → List String → List String
add_part [] parts = parts
add_part (c ∷ s) parts = List.◌∷◌ (c ∷ s) parts

abbrev pub ends_segment : Bool → ℕ → Bool
ends_segment in_quotes c = is_whitespace c && not in_quotes

abbrev pub toggles : Bool → ℕ → Bool
toggles in_quotes c = if c == b'"' then not in_quotes else in_quotes

unfoldable pub segments : Bool → String → String → List String
segments in_quotes cur [] = add_part cur List.[]
segments in_quotes cur (c ∷ s) =
    let ends = ends_segment in_quotes (code c) in
    let rest =
      segments (toggles in_quotes (code c)) (if ends then [] else push_str cur (c ∷ [])) s in
    if ends then add_part cur rest else rest

-- A segment behind the ones before it, after a space if there are any.
abbrev pub add_segment : String → String → String
add_segment [] seg = seg
add_segment (c ∷ acc) seg = push_str (c ∷ acc) (" " ∷ seg)

abbrev pub unquote : String → String
unquote s = trim_matches b'"' s

module _ ⦃f : Foreign⦄ where
  unfoldable pub is_connector : String → Bool
  is_connector seg = let l = to_lowercase seg in l == "and" || l == "y"

  -- The second loop: a connector that stands alone begins a new part.
  unfoldable pub parts : String → List String → List String
  parts acc List.[] = add_part (trim acc) List.[]
  parts acc (List.◌∷◌ seg segs) =
      let connects = is_connector seg in
      let rest = parts (if connects then [] else add_segment acc seg) segs in
      if connects then add_part (trim acc) rest else rest

  unfoldable pub split_and : String → List String
  split_and q = parts [] (segments false [] q)

  abbrev pub integrity_of : String → Option SearchTerm
  integrity_of v =
      if v == "ok" || v == "verificada" || v == "verified"
      then some (integrity IntegrityStatus.ok)
      else if v == "tampered" || v == "manipulado"
      then some (integrity IntegrityStatus.tampered)
      else if v == "pending" || v == "pendiente"
      then some (integrity IntegrityStatus.pending)
      else none

  abbrev pub map_some : {A B : Type 0} → (A → B) → Option A → Option B
  map_some g none = none
  map_some g (some a) = some (g a)

  -- The `match` on the key.
  unfoldable pub term_of : String → String → Option SearchTerm
  term_of key value =
      if key == "categoria" || key == "category" || key == "categoría"
      then map_some category (from_dir_name value)
      else if key == "autor" || key == "author"
      then some (author (to_lowercase value))
      else if key == "departamento" || key == "department"
      then some (department (to_lowercase value))
      else if key == "anio" || key == "año" || key == "year"
      then map_some year (parse_unsigned 65535 value)
      else if key == "extension" || key == "ext"
      then some (extension (to_lowercase value))
      else if key == "integridad" || key == "integrity"
      then integrity_of (to_lowercase value)
      else if key == "titulo" || key == "título" || key == "title"
      then some (text (to_lowercase value))
      else if key == "nombre" || key == "filename" || key == "archivo"
      then some (file_name (to_lowercase value))
      else if key == "" || key == "texto" || key == "text" || key == "q"
      then some (text (to_lowercase value))
      else none

  -- A part without a colon has the empty key.
  abbrev pub term_of_pair : String → Option (String × String) → Option SearchTerm
  term_of_pair raw none = term_of "" (unquote raw)
  term_of_pair raw (some (k, v)) = term_of (to_lowercase (trim k)) (unquote (trim v))

  unfoldable pub parse_part : String → Option SearchTerm
  parse_part part =
      let raw = trim part in if is_empty raw then none else term_of_pair raw (split_once b':' raw)

  abbrev pub add_term : Option SearchTerm → List SearchTerm → List SearchTerm
  add_term none ts = ts
  add_term (some t) ts = List.◌∷◌ t ts

  unfoldable pub parse_parts : List String → List SearchTerm
  parse_parts List.[] = List.[]
  parse_parts (List.◌∷◌ p ps) = add_term (parse_part p) (parse_parts ps)

  -- `SearchQuery::parse`
  unfoldable pub parse : String → SearchQuery
  parse q = record { terms = parse_parts (split_and q) }

  abbrev pub contains_lower : String → String → Bool
  contains_lower s pat = contains pat (to_lowercase s)

  abbrev pub text_contains : Option String → String → Bool
  text_contains none pat = false
  text_contains (some t) pat = contains_lower t pat

  abbrev pub year_is : Option ℕ → ℕ → Bool
  year_is none y = false
  year_is (some z) y = z == y

  unfoldable pub term_matches : SearchTerm → Document → Option String → Bool
  term_matches (category c) doc t = doc.meta.category == c
  term_matches (author a) doc t = contains_lower doc.meta.author a
  term_matches (department d) doc t = contains_lower doc.meta.department d
  term_matches (year y) doc t = year_is doc.meta.academic_year y
  term_matches (extension e) doc t = eq_ignore_ascii_case doc.meta.extension e
  term_matches (integrity s) doc t = doc.integrity == s
  term_matches (file_name n) doc t = contains_lower doc.meta.file_name n
  term_matches (text q) doc t =
      contains_lower doc.meta.title q
      || contains_lower doc.meta.author q
      || contains_lower doc.meta.department q
      || contains_lower doc.meta.file_name q
      || text_contains t q

  -- `SearchQuery::matches`
  unfoldable pub matches : SearchQuery → Document → Option String → Bool
  matches q doc t = all (λ term. term_matches term doc t) q.terms

  unfoldable pub search_documents : DbState → SearchQuery → List Document
  search_documents st q = keep (λ d. matches q d (get_text d.vault_id st)) st.documents
