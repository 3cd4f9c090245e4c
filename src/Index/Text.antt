-- ===== src/Index/Text.antt =====
-- crates/vault-index/src/lib.rs: the text of Office containers, and the bounds on it.
pub mod Escapes
pub mod Bounds
use Prim.Native.Char.{Char, code}
use Prim.Native.String.{[], ◌∷◌, len, slice}
use mathlib.Core.List.{List}
use text.Mathlib.Text.{is_char_boundary}
use ubod.Base.{
  ℕ, zero, suc, ◌-◌, min, String, Bool, true, false, not, ◌&&◌, ◌||◌, ◌==◌, nat_eq, string_eq, ltb,
  leb, if◌then◌else◌,
}
use ubod.Base.Text.{push_str, is_empty, is_whitespace, join, starts_with, ends_with}

pub data OfficeKind : Type 0 where
  docx xlsx pptx odf : OfficeKind

-- `OfficeKind::matches`
unfoldable pub holds_text : OfficeKind → String → Bool
holds_text docx name =
    (name == "word/document.xml" || name == "word/footnotes.xml" || name == "word/endnotes.xml")
    || (ends_with ".xml" name && (starts_with "word/header" name || starts_with "word/footer" name))
holds_text xlsx name =
    name == "xl/sharedStrings.xml"
    || (starts_with "xl/worksheets/sheet" name && ends_with ".xml" name)
holds_text pptx name =
    ends_with ".xml" name
    && (starts_with "ppt/slides/slide" name || starts_with "ppt/notesSlides/notesSlide" name)
holds_text odf name = name == "content.xml"

-- `split_whitespace`: the word so far, and the rest.
abbrev pub add_word : String → List String → List String
add_word [] ws = ws
add_word (c ∷ s) ws = List.◌∷◌ (c ∷ s) ws

unfoldable pub words_of : String → String → List String
words_of cur [] = add_word cur List.[]
words_of cur (c ∷ s) =
    let space = is_whitespace (code c) in
    let rest = words_of (if space then [] else push_str cur (c ∷ [])) s in
    if space then add_word cur rest else rest

unfoldable pub collapse_ws : String → String
collapse_ws s = join " " (words_of [] s)

abbrev pub entity : String → String
entity e =
    if e == "amp"
    then "&"
    else if e == "lt"
    then "<"
    else if e == "gt"
    then ">"
    else if e == "quot"
    then "\""
    else if e == "apos"
    then "'"
    else " "

-- Where the loop of `xml_to_text` stands: in text, in a tag, or in an entity with its name so far.
pub data XmlMode : Type 0 where
  in_text in_tag : XmlMode
  in_entity : String → XmlMode

pub record XmlState : Type 0 where
  pub mode : XmlMode
  pub out : String

abbrev push : XmlMode → String → String → XmlState
push m out s = record { mode = m; out = push_str out s }

-- A character in text, and in a tag.
abbrev pub text_char : Char → String → XmlState
text_char c out =
    if code c == b'<'
    then record { mode = in_tag; out = out }
    else if code c == b'>'
    then push in_text out " "
    else if code c == b'&'
    then record { mode = in_entity ""; out = out }
    else push in_text out (c ∷ [])

abbrev pub tag_char : Char → String → XmlState
tag_char c out =
    if code c == b'>' then push in_text out " " else record { mode = in_tag; out = out }

-- The inner loop stops at a semicolon, which goes with the entity, and at a name of more than 8 bytes.
abbrev pub entity_char : Char → String → String → XmlState
entity_char c e out =
    if code c == b';'
    then push in_text out (entity e)
    else if ltb 8 (len e)
    then text_char c (push_str out (entity e))
    else record { mode = in_entity (push_str e (c ∷ [])); out = out }

unfoldable pub xml_step : XmlMode → Char → String → XmlState
xml_step in_text c out = text_char c out
xml_step in_tag c out = tag_char c out
xml_step (in_entity e) c out = entity_char c e out

abbrev pub xml_end : XmlMode → String → String
xml_end in_text out = out
xml_end in_tag out = out
xml_end (in_entity e) out = push_str out (entity e)

unfoldable pub xml_loop : XmlMode → String → String → String
xml_loop m out [] = xml_end m out
xml_loop m out (c ∷ s) = let st = xml_step m c out in xml_loop st.mode st.out s

unfoldable pub xml_to_text : String → String
xml_to_text xml = collapse_ws (xml_loop in_text "" xml)

-- `MAX_INDEXED_TEXT`
abbrev pub max_indexed_text : ℕ
max_indexed_text = 1048576

-- `while cut > 0 && !s.is_char_boundary(cut) { cut -= 1 }`
unfoldable pub char_boundary : String → ℕ → ℕ
char_boundary s zero = zero
char_boundary s (suc cut) =
    let below = char_boundary s cut in if is_char_boundary s (suc cut) then suc cut else below

unfoldable pub truncate_on_char_boundary : String → ℕ → String
truncate_on_char_boundary s max = if leb (len s) max then s else slice s 0 (char_boundary s max)

unfoldable pub push_limited : String → String → String
push_limited dst src =
    if is_empty src || not (ltb (len dst) max_indexed_text)
    then dst
    else let dst' = if is_empty dst then dst else push_str dst " " in
      push_str dst' (slice src 0 (char_boundary src (min (len src) (max_indexed_text - len dst'))))

-- The texts of the parts of a container, one after the other.
unfoldable pub concat_parts : String → List String → String
concat_parts out List.[] = out
concat_parts out (List.◌∷◌ xml parts) =
    let rest = concat_parts (push_limited out (xml_to_text xml)) parts in
    if leb max_indexed_text (len out) then out else rest
