-- ===== src/Index/Query/RoundTrip.antt =====
-- `SearchQuery::parse` reads what is written in its grammar: crates/vault-index/src/lib.rs.
use Prim.Native.Char.{Char, code}
use Prim.Native.String.{[], ◌∷◌}
use mathlib.Core.List.{List, map}
use ubod.Base.{
  String, true, false, ◌||◌, ◌==◌, nat_eq, string_eq, eq_iff, some, ◌≡◌, refl, ap, ◌∙◌, arith,
  Bool-cases, inl, inr, ◌≢◌,
}
use ubod.Base.Foreign.{Foreign, to_lowercase, ascii_lowercase}
use ubod.Base.Text.{
  push_str, is_empty, every, is_whitespace, trim, trim_matches, strip_front, strip_back, split_once,
  decimal,
}
use ubod.Base.Text.Laws.{trim_lem}
use ubod.Base.Text.Numbers.{parse_unsigned-decimal, every-decimal}
use ubod.Core.Category.{Category, dir_name, from_dir_name-dir_name}
use ubod.Core.Records.{IntegrityStatus}
use ubod.Index.Query.{
  SearchTerm, category, author, department, year, extension, integrity, text, file_name,
  is_connector, parts, split_and, unquote, term_of, parse_part, parse_parts, parse,
}
use ubod.Index.Query.Print.{
  quoted, key_of, value_of, print_term, pairs, print_query, no_quote, IsPrintable, AllPrintable,
}
use ubod.Index.Query.Segments.{is_word, words, AllCut, segments-written, add_part-quoted}

-- Quotation marks around a text without any come off.
strip_back-quote : (v : String) → every no_quote v ≡ true → strip_back b'"' (push_str v "\"") ≡ v
unfolding strip_back
strip_back-quote [] h = refl
strip_back-quote (c ∷ []) h = ground (arith, h)
strip_back-quote (c ∷ d ∷ v) h = rw (strip_back-quote (d ∷ v) (ground (arith, h))) refl

unquote-quote :
    (v : String) → every no_quote v ≡ true → unquote (push_str "\"" (push_str v "\"")) ≡ v
unfolding trim_matches strip_front
unquote-quote [] h = refl
unquote-quote (c ∷ v) h =
    let here : (code c == b'"') ≡ false = ground (arith, h) in rw here (strip_back-quote (c ∷ v) h)

differs : (s t : String) → s ≢ t → (s == t) ≡ false
differs s t ne = elim (Bool-cases (s == t)) [
  | inl same ↦ absurd (ne ((eq_iff s t).0 same))
  | inr e ↦ e
]

long_no_connector :
    (a b c d : Char) (s : String)
    → ((a ∷ b ∷ c ∷ d ∷ s) == "and" || (a ∷ b ∷ c ∷ d ∷ s) == "y") ≡ false
long_no_connector a b c d s =
    rw (differs (a ∷ b ∷ c ∷ d ∷ s) "and" (λ e. cc), differs (a ∷ b ∷ c ∷ d ∷ s) "y" (λ e. cc)) refl

module _ ⦃f : Foreign⦄ where
  no_connector : (t : SearchTerm) → is_connector (print_term t) ≡ false
  unfolding is_connector to_lowercase ascii_lowercase
  no_connector (category c) =
      long_no_connector "c" "a" "t" "e" (to_lowercase (quoted "goria" (dir_name c)))
  no_connector (author a) = long_no_connector "a" "u" "t" "o" (to_lowercase (quoted "r" a))
  no_connector (department d) =
      long_no_connector "d" "e" "p" "a" (to_lowercase (quoted "rtamento" d))
  no_connector (year y) = long_no_connector "a" "n" "i" "o" (to_lowercase (quoted "" (decimal y)))
  no_connector (extension e) = long_no_connector "e" "x" "t" "e" (to_lowercase (quoted "nsion" e))
  no_connector (integrity s) =
      long_no_connector "i" "n" "t" "e" (to_lowercase (quoted "gridad" (value_of (integrity s))))
  no_connector (text q) = long_no_connector "t" "e" "x" "t" (to_lowercase (quoted "o" q))
  no_connector (file_name n) = long_no_connector "n" "o" "m" "b" (to_lowercase (quoted "re" n))

  connector : is_connector "AND" ≡ true
  unfolding is_connector to_lowercase ascii_lowercase
  connector = refl

trim-print_term : (t : SearchTerm) → trim (print_term t) ≡ print_term t
unfolding is_whitespace
trim-print_term (category c) = trim_lem "c" "\"" (push_str "ategoria:\"" (dir_name c)) refl refl
trim-print_term (author a) = trim_lem "a" "\"" (push_str "utor:\"" a) refl refl
trim-print_term (department d) = trim_lem "d" "\"" (push_str "epartamento:\"" d) refl refl
trim-print_term (year y) = trim_lem "a" "\"" (push_str "nio:\"" (decimal y)) refl refl
trim-print_term (extension e) = trim_lem "e" "\"" (push_str "xtension:\"" e) refl refl
trim-print_term (integrity s) =
    trim_lem "i" "\"" (push_str "ntegridad:\"" (value_of (integrity s))) refl refl
trim-print_term (text q) = trim_lem "t" "\"" (push_str "exto:\"" q) refl refl
trim-print_term (file_name n) = trim_lem "n" "\"" (push_str "ombre:\"" n) refl refl

module _ ⦃f : Foreign⦄ where
  parts-words : (ts : List SearchTerm) → parts [] (words (pairs ts)) ≡ map print_term ts
  unfolding parts trim
  parts-words List.[] = refl
  parts-words (List.◌∷◌ t List.[]) =
      rw (no_connector t, trim-print_term t) (add_part-quoted (key_of t) (value_of t) List.[])
  parts-words (List.◌∷◌ t (List.◌∷◌ u ts)) =
      rw (no_connector t, connector, trim-print_term t, parts-words (List.◌∷◌ u ts))
        (add_part-quoted (key_of t) (value_of t) _)

split-print_term :
    (t : SearchTerm)
    → split_once b':' (print_term t) ≡ some (key_of t, push_str "\"" (push_str (value_of t) "\""))
unfolding split_once
split-print_term (category c) = refl
split-print_term (author a) = refl
split-print_term (department d) = refl
split-print_term (year y) = refl
split-print_term (extension e) = refl
split-print_term (integrity s) = refl
split-print_term (text q) = refl
split-print_term (file_name n) = refl

value-IsPrintable :
    ⦃f : Foreign⦄ (t : SearchTerm) → IsPrintable t → every no_quote (value_of t) ≡ true
unfolding dir_name
value-IsPrintable (category Category.tesis) h = refl
value-IsPrintable (category Category.expediente_profesor) h = refl
value-IsPrintable (category Category.resolucion) h = refl
value-IsPrintable (category Category.evaluacion) h = refl
value-IsPrintable (category Category.fotografia_documental) h = refl
value-IsPrintable (category Category.material_grafico) h = refl
value-IsPrintable (author a) h = h.unquoted
value-IsPrintable (department d) h = h.unquoted
value-IsPrintable (year y) h = every-decimal no_quote (λ d k. ground (arith, k)) y
value-IsPrintable (extension e) h = h.unquoted
value-IsPrintable (integrity IntegrityStatus.ok) h = refl
value-IsPrintable (integrity IntegrityStatus.pending) h = refl
value-IsPrintable (integrity IntegrityStatus.tampered) h = refl
value-IsPrintable (text q) h = h.unquoted
value-IsPrintable (file_name n) h = h.unquoted

key-is_word : (t : SearchTerm) → every is_word (key_of t) ≡ true
unfolding is_whitespace
key-is_word (category c) = refl
key-is_word (author a) = refl
key-is_word (department d) = refl
key-is_word (year y) = refl
key-is_word (extension e) = refl
key-is_word (integrity s) = refl
key-is_word (text q) = refl
key-is_word (file_name n) = refl

module _ ⦃f : Foreign⦄ where
  term-IsPrintable :
      (t : SearchTerm)
      → IsPrintable t
      → term_of (to_lowercase (trim (key_of t))) (value_of t) ≡ some t
  unfolding term_of to_lowercase ascii_lowercase trim is_whitespace
  term-IsPrintable (category c) h = rw (from_dir_name-dir_name c) refl
  term-IsPrintable (author a) h = ap (λ (x : String). some (author x)) h.lowered
  term-IsPrintable (department d) h = ap (λ (x : String). some (department x)) h.lowered
  term-IsPrintable (year y) h = rw (parse_unsigned-decimal 65535 y h) refl
  term-IsPrintable (extension e) h = ap (λ (x : String). some (extension x)) h.lowered
  term-IsPrintable (integrity IntegrityStatus.ok) h = refl
  term-IsPrintable (integrity IntegrityStatus.pending) h = refl
  term-IsPrintable (integrity IntegrityStatus.tampered) h = refl
  term-IsPrintable (text q) h = ap (λ (x : String). some (text x)) h.lowered
  term-IsPrintable (file_name n) h = ap (λ (x : String). some (file_name x)) h.lowered

  not_empty : (key v : String) → is_empty (quoted key v) ≡ false
  not_empty [] v = refl
  not_empty (c ∷ key) v = refl

  parse_part-print_term : (t : SearchTerm) → IsPrintable t → parse_part (print_term t) ≡ some t
  unfolding parse_part is_whitespace
  parse_part-print_term t h =
      rw
        (
          trim-print_term t,
          not_empty (key_of t) (value_of t),
          split-print_term t,
          trim_lem "\"" "\"" (value_of t) refl refl,
          unquote-quote (value_of t) (value-IsPrintable t h),
        )
        (term-IsPrintable t h)

  parse_parts-map : (ts : List SearchTerm) → AllPrintable ts → parse_parts (map print_term ts) ≡ ts
  unfolding parse_parts
  parse_parts-map List.[] h = refl
  parse_parts-map (List.◌∷◌ t ts) (ht, hts) =
      rw (parse_part-print_term t ht, parse_parts-map ts hts) refl

  all_cut : (ts : List SearchTerm) → AllPrintable ts → AllCut (pairs ts)
  all_cut List.[] h = tt
  all_cut (List.◌∷◌ t ts) (ht, hts) = (key-is_word t, value-IsPrintable t ht, all_cut ts hts)

  -- A query is read as the terms it was written for: any number of them, with AND between, each as a
  -- key and a value in quotation marks. The texts are in lower case and have no quotation mark, but
  -- may have spaces, colons and the word AND; a year fits into 16 bits.
  pub parse-print_query :
      (ts : List SearchTerm) → AllPrintable ts → parse (print_query ts) ≡ record { terms = ts }
  unfolding parse split_and
  parse-print_query ts h =
      ap (λ (ts' : List SearchTerm). record { terms = ts' })
        (ap (λ segs. parse_parts (parts [] segs)) (segments-written (pairs ts) (all_cut ts h))
          ∙ ap parse_parts (parts-words ts)
          ∙ parse_parts-map ts h)
