-- ===== src/Index/Text/Escapes.antt =====
-- Text that is written into XML comes out of `xml_to_text` again: crates/vault-index/src/lib.rs.
use Prim.Native.Char.{Char, code}
use Prim.Native.String.{[], ◌∷◌}
use text.Mathlib.TextEquality.{Char-path}
use ubod.Base.{
  String, true, false, ◌==◌, nat_eq, if◌then◌else◌, ◌≡◌, refl, sym, subst, ap, ◌∙◌, Bool-cases, inl,
  inr,
}
use ubod.Base.Text.{push_str}
use ubod.Base.Text.Laws.{push_str-nil, push_str_assoc}
use ubod.Index.Text.{XmlState, in_text, text_char, xml_loop, xml_step, xml_to_text, collapse_ws}

-- How a writer of XML puts a character.
abbrev pub escape_char : Char → String
escape_char c =
    if code c == b'<'
    then "&lt;"
    else if code c == b'>'
    then "&gt;"
    else if code c == b'&'
    then "&amp;"
    else if code c == b'"'
    then "&quot;"
    else if code c == b'\''
    then "&apos;"
    else c ∷ []

abbrev pub escape : String → String
escape [] = []
escape (c ∷ s) = push_str (escape_char c) (escape s)

abbrev ReadsBack : String → String → Char → Type 0
ReadsBack out r c =
    xml_loop in_text out (push_str (escape_char c) r) ≡ xml_loop in_text (push_str out (c ∷ [])) r

module _ (out r : String) where
  at_char : (c d : Char) → (code c == code d) ≡ true → ReadsBack out r d → ReadsBack out r c
  at_char c d e h =
      subst (ReadsBack out r) (sym (Char-path c d ((nat_eq.equal_iff (code c) (code d)).0 e))) h

  escaped_chars :
      ReadsBack out r "<"
      × ReadsBack out r ">"
      × ReadsBack out r "&"
      × ReadsBack out r "\""
      × ReadsBack out r "'"
  unfolding xml_loop xml_step
  escaped_chars = (refl, refl, refl, refl, refl)

  other_char :
      (c : Char)
      → (code c == b'<') ≡ false
      → (code c == b'>') ≡ false
      → (code c == b'&') ≡ false
      → (code c == b'"') ≡ false
      → (code c == b'\'') ≡ false
      → ReadsBack out r c
  unfolding xml_loop xml_step
  other_char c h1 h2 h3 h4 h5 =
      let unescaped : escape_char c ≡ c ∷ [] = rw (h1, h2, h3, h4, h5) refl in
      let kept : text_char c out ≡ record { mode = in_text; out = push_str out (c ∷ []) } =
        rw (h1, h2, h3) refl in
      ap (λ (x : String). xml_loop in_text out (push_str x r)) unescaped
      ∙ ap (λ (st : XmlState). xml_loop st.mode st.out r) kept

  escape_char-ReadsBack : (c : Char) → ReadsBack out r c
  escape_char-ReadsBack c = elim (Bool-cases (code c == b'<')) [
    | inl e ↦ at_char c "<" e escaped_chars.0
    | inr h1 ↦ elim (Bool-cases (code c == b'>')) [
      | inl e ↦ at_char c ">" e escaped_chars.1
      | inr h2 ↦ elim (Bool-cases (code c == b'&')) [
        | inl e ↦ at_char c "&" e escaped_chars.2
        | inr h3 ↦ elim (Bool-cases (code c == b'"')) [
          | inl e ↦ at_char c "\"" e escaped_chars.3
          | inr h4 ↦ elim (Bool-cases (code c == b'\'')) [
            | inl e ↦ at_char c "'" e escaped_chars.4
            | inr h5 ↦ other_char c h1 h2 h3 h4 h5
          ]
        ]
      ]
    ]
  ]

xml_loop-escape :
    (s r out : String)
    → xml_loop in_text out (push_str (escape s) r) ≡ xml_loop in_text (push_str out s) r
xml_loop-escape [] r out = ap (λ (x : String). xml_loop in_text x r) (sym (push_str-nil out))
xml_loop-escape (c ∷ s) r out =
    ap (xml_loop in_text out) (push_str_assoc (escape_char c) (escape s) r)
    ∙ escape_char-ReadsBack out (push_str (escape s) r) c
    ∙ xml_loop-escape s r (push_str out (c ∷ []))
    ∙ ap (λ (x : String). xml_loop in_text x r) (push_str_assoc out (c ∷ []) s)

pub xml_to_text-escape : (s : String) → xml_to_text (escape s) ≡ collapse_ws s
unfolding xml_to_text xml_loop
xml_to_text-escape s =
    ap (λ (x : String). collapse_ws (xml_loop in_text "" x)) (sym (push_str-nil (escape s)))
    ∙ ap collapse_ws (xml_loop-escape s [] "")
