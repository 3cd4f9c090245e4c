-- ===== src/Index/Query/Segments.antt =====
-- How a query is cut into segments: quoted text stays whole. crates/vault-index/src/lib.rs.
use Prim.Native.String.{[], ◌∷◌}
use mathlib.Core.List.{List}
use ubod.Base.{String, ℕ, Bool, true, false, not, ◌&&◌, nat_eq, ◌≡◌, refl, sym, ap, ◌∙◌, arith}
use ubod.Base.Text.{push_str, every, is_whitespace}
use ubod.Base.Text.Laws.{push_str-nil, push_str_assoc}
use ubod.Index.Query.{segments, add_part}
use ubod.Index.Query.Print.{quoted, written, no_quote}

abbrev pub is_word : ℕ → Bool
is_word c = not (is_whitespace c) && no_quote c

-- A piece without white space and quotation marks, and a piece in quotation marks, go into the segment.
segments_word :
    (cur w r : String)
    → every is_word w ≡ true
    → segments false cur (push_str w r) ≡ segments false (push_str cur w) r
unfolding segments
segments_word cur [] r h = ap (λ (x : String). segments false x r) (sym (push_str-nil cur))
segments_word cur (c ∷ w) r h =
    ground (arith, h, segments_word (push_str cur (c ∷ [])) w r, push_str_assoc cur (c ∷ []) w)

segments_quoted :
    (cur v r : String)
    → every no_quote v ≡ true
    → segments true cur (push_str v r) ≡ segments true (push_str cur v) r
unfolding segments
segments_quoted cur [] r h = ap (λ (x : String). segments true x r) (sym (push_str-nil cur))
segments_quoted cur (c ∷ v) r h =
    ground (arith, h, segments_quoted (push_str cur (c ∷ [])) v r, push_str_assoc cur (c ∷ []) v)

pub add_part-quoted :
    (key v : String) (ps : List String) → add_part (quoted key v) ps ≡ List.◌∷◌ (quoted key v) ps
add_part-quoted [] v ps = refl
add_part-quoted (c ∷ key) v ps = refl

quoted-push_str :
    (key v r : String)
    → push_str (quoted key v) r ≡ push_str key (push_str ":\"" (push_str v (push_str "\"" r)))
quoted-push_str key v r =
    push_str_assoc key (push_str ":\"" (push_str v "\"")) r
    ∙ ap (λ (x : String). push_str key (push_str ":\"" x)) (push_str_assoc v "\"" r)

quoted_lem :
    (key v : String) → push_str (push_str (push_str (push_str key ":") "\"") v) "\"" ≡ quoted key v
quoted_lem key v =
    push_str_assoc (push_str (push_str key ":") "\"") v "\""
    ∙ push_str_assoc (push_str key ":") "\"" (push_str v "\"")
    ∙ push_str_assoc key ":" (push_str "\"" (push_str v "\""))

-- A term in quotation marks is one segment, whatever it says.
segments_term :
    (key v r : String)
    → every is_word key ≡ true
    → every no_quote v ≡ true
    → segments false [] (push_str (quoted key v) r) ≡ segments false (quoted key v) r
unfolding segments is_whitespace
segments_term key v r h k =
    ap (segments false []) (quoted-push_str key v r)
    ∙ segments_word [] key _ h
    ∙ segments_quoted (push_str (push_str key ":") "\"") v (push_str "\"" r) k
    ∙ ap (λ (x : String). segments false x r) (quoted_lem key v)

-- The segments of a query that is written out.
abbrev pub words : List (String × String) → List String
words List.[] = List.[]
words (List.◌∷◌ (k, v) List.[]) = List.◌∷◌ (quoted k v) List.[]
words (List.◌∷◌ (k, v) (List.◌∷◌ p ps)) =
    List.◌∷◌ (quoted k v) (List.◌∷◌ "AND" (words (List.◌∷◌ p ps)))

abbrev pub AllCut : List (String × String) → Type 0
AllCut List.[] = Unit
AllCut (List.◌∷◌ (k, v) ps) = (every is_word k ≡ true) × (every no_quote v ≡ true) × AllCut ps

pub segments-written :
    (ps : List (String × String)) → AllCut ps → segments false [] (written ps) ≡ words ps
unfolding segments is_whitespace
segments-written List.[] h = refl
segments-written (List.◌∷◌ (k, v) List.[]) (hk, hv, h) =
    ap (segments false []) (sym (push_str-nil (quoted k v)))
    ∙ segments_term k v [] hk hv
    ∙ add_part-quoted k v List.[]
segments-written (List.◌∷◌ (k, v) (List.◌∷◌ p ps)) (hk, hv, h) =
    segments_term k v (push_str " AND " (written (List.◌∷◌ p ps))) hk hv
    ∙ add_part-quoted k v _
    ∙ ap (λ (x : List String). List.◌∷◌ (quoted k v) (List.◌∷◌ "AND" x))
        (segments-written (List.◌∷◌ p ps) h)
