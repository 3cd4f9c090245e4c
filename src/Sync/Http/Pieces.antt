-- ===== src/Sync/Http/Pieces.antt =====
-- A request does not depend on how its bytes come in: crates/vault-sync/src/server.rs.
use ubod.Base.{
  ℕ, zero, suc, ◌+◌, ◌*◌, ◌≤◌, true, false, leb, ltb, nat_eq, if◌then◌else◌, Option, none, some,
  List, [], ◌∷◌, ◌++◌, ◌≡◌, refl, sym, ap, subst, ◌∙◌, arith, length, length-append, take, drop,
  Bool-cases, Option-cases, inl, inr,
}
use ubod.Base.Exec.{Result, ok, err}
use ubod.Sync.{SyncError, http}
use ubod.Sync.Http.{Chunks, is_end, later, find_header_end, at_end, or_more, read_head, read_body}

abbrev pub joined : Chunks → List ℕ
joined [] = []
joined (c ∷ cs) = c ++ joined cs

is_end-append : (xs ys : List ℕ) → is_end xs ≡ true → is_end (xs ++ ys) ≡ true
is_end-append [] ys h = cc
is_end-append (a ∷ []) ys h = cc
is_end-append (a ∷ b ∷ []) ys h = cc
is_end-append (a ∷ b ∷ c ∷ []) ys h = cc
is_end-append (a ∷ b ∷ c ∷ d ∷ xs) ys h = h

-- An end that is not there yet, and is with more bytes, is of fewer than four bytes so far.
is_end-short : (xs ys : List ℕ) → is_end xs ≡ false → is_end (xs ++ ys) ≡ true → length xs ≤ 3
is_end-short [] ys h k = omega arith
is_end-short (a ∷ []) ys h k = omega arith
is_end-short (a ∷ b ∷ []) ys h k = omega arith
is_end-short (a ∷ b ∷ c ∷ []) ys h k = omega arith
is_end-short (a ∷ b ∷ c ∷ d ∷ xs) ys h k = cc

find-short : (xs : List ℕ) → length xs ≤ 3 → find_header_end xs ≡ none
unfolding find_header_end
find-short [] h = refl
find-short (a ∷ []) h = refl
find-short (a ∷ b ∷ []) h = refl
find-short (a ∷ b ∷ c ∷ []) h = refl
find-short (a ∷ b ∷ c ∷ d ∷ xs) h = absurd (omega (arith, h))

later-some : (o : Option ℕ) (p : ℕ) → later o ≡ some p → (q : ℕ) × (o ≡ some q) × (p ≡ 1 + q)
later-some none p h = cc
later-some (some q) p h = (q, refl, ground (arith, h))

find-here : (b : ℕ) (bs : List ℕ) → is_end (b ∷ bs) ≡ true → find_header_end (b ∷ bs) ≡ some 0
unfolding find_header_end
find-here b bs e = rw e refl

find-later :
    (b : ℕ) (bs : List ℕ)
    → is_end (b ∷ bs) ≡ false
    → find_header_end (b ∷ bs) ≡ later (find_header_end bs)
unfolding find_header_end
find-later b bs e = rw e refl

none≢some : (o : Option ℕ) (p : ℕ) → o ≡ none → o ≡ some p → ⊥
none≢some o p h k = cc

-- More bytes do not move the end.
find-append :
    (xs ys : List ℕ) (p : ℕ) → find_header_end xs ≡ some p → find_header_end (xs ++ ys) ≡ some p
find-append [] ys p h = absurd (none≢some _ p (find-short [] (omega arith)) h)
find-append (b ∷ bs) ys p h = elim (Bool-cases (is_end (b ∷ bs))) [
  | inl e ↦ find-here b (bs ++ ys) (is_end-append (b ∷ bs) ys e) ∙ sym (find-here b bs e) ∙ h
  | inr e ↦ elim (Bool-cases (is_end (b ∷ bs ++ ys))) [
    | inl k ↦ absurd (none≢some _ p (find-short (b ∷ bs) (is_end-short (b ∷ bs) ys e k)) h)
    | inr k ↦
        let (q, there, _) = later-some (find_header_end bs) p (sym (find-later b bs e) ∙ h) in
        find-later b (bs ++ ys) k
        ∙ ap later (find-append bs ys q there ∙ sym there)
        ∙ sym (find-later b bs e)
        ∙ h
  ]
]

later-none : (o : Option ℕ) → later o ≡ none → o ≡ none
later-none none h = refl
later-none (some q) h = cc

-- Without the end, there are at most three bytes beyond its place.
find-bound :
    (xs ys : List ℕ) (p : ℕ)
    → find_header_end (xs ++ ys) ≡ some p
    → find_header_end xs ≡ none
    → length xs ≤ p + 3
find-bound [] ys p h k = omega arith
find-bound (b ∷ bs) ys p h k = elim (Bool-cases (is_end (b ∷ bs))) [
  | inl e ↦ absurd (none≢some _ 0 k (find-here b bs e))
  | inr e ↦ elim (Bool-cases (is_end (b ∷ bs ++ ys))) [
    | inl t ↦ omega (arith, is_end-short (b ∷ bs) ys e t)
    | inr t ↦
        let (q, there, more) =
          later-some (find_header_end (bs ++ ys)) p (sym (find-later b (bs ++ ys) t) ∙ h) in
        omega (arith, more, find-bound bs ys q there (later-none _ (sym (find-later b bs e) ∙ k)))
  ]
]

is_end-long : (xs : List ℕ) → is_end xs ≡ true → 4 ≤ length xs
is_end-long [] h = cc
is_end-long (a ∷ []) h = cc
is_end-long (a ∷ b ∷ []) h = cc
is_end-long (a ∷ b ∷ c ∷ []) h = cc
is_end-long (a ∷ b ∷ c ∷ d ∷ xs) h = omega arith

some-injective : (o : Option ℕ) (p q : ℕ) → o ≡ some p → o ≡ some q → p ≡ q
some-injective o p q h k = cc

find-inside : (xs : List ℕ) (p : ℕ) → find_header_end xs ≡ some p → p + 4 ≤ length xs
find-inside [] p h = absurd (none≢some _ p (find-short [] (omega arith)) h)
find-inside (b ∷ bs) p h = elim (Bool-cases (is_end (b ∷ bs))) [
  | inl e ↦ omega (arith, is_end-long (b ∷ bs) e, some-injective _ p 0 h (find-here b bs e))
  | inr e ↦
      let (q, there, more) = later-some (find_header_end bs) p (sym (find-later b bs e) ∙ h) in
      omega (arith, more, find-inside bs q there)
]

take-append : (n : ℕ) (xs ys : List ℕ) → n ≤ length xs → take n (xs ++ ys) ≡ take n xs
take-append zero xs ys h = refl
take-append (suc n) [] ys h = absurd (omega (arith, h))
take-append (suc n) (x ∷ xs) ys h = ap (◌∷◌ x) (take-append n xs ys (omega (arith, h)))

drop-append : (n : ℕ) (xs ys : List ℕ) → n ≤ length xs → drop n (xs ++ ys) ≡ drop n xs ++ ys
drop-append zero xs ys h = refl
drop-append (suc n) [] ys h = absurd (omega (arith, h))
drop-append (suc n) (x ∷ xs) ys h = drop-append n xs ys (omega (arith, h))

append-nil : (xs : List ℕ) → xs ++ [] ≡ xs
append-nil [] = refl
append-nil (x ∷ xs) = ap (◌∷◌ x) (append-nil xs)

append_assoc : (xs ys zs : List ℕ) → (xs ++ ys) ++ zs ≡ xs ++ (ys ++ zs)
append_assoc [] ys zs = refl
append_assoc (x ∷ xs) ys zs = ap (◌∷◌ x) (append_assoc xs ys zs)

-- What reading the headers gives, for bytes whose end is at `pos`.
abbrev pub HeadOf : List ℕ → ℕ → Result SyncError (Option (List ℕ × List ℕ × Chunks)) → Type 0
HeadOf whole pos r =
    (body : List ℕ) × (cs : Chunks) × (r ≡ ok (some (take pos whole, body, cs)))
    × (body ++ joined cs ≡ drop (pos + 4) whole)

found_here :
    (buf : List ℕ) (cs : Chunks) (pos : ℕ)
    (more : Result SyncError (Option (List ℕ × List ℕ × Chunks)))
    → find_header_end buf ≡ some pos
    → HeadOf (buf ++ joined cs) pos (or_more (at_end buf cs (find_header_end buf)) more)
found_here buf cs pos more h = (
  drop (pos + 4) buf,
  cs,
  rw h (
      ap (λ xs. ok (some (xs, drop (pos + 4) buf, cs)))
        (sym (take-append pos buf (joined cs) (omega (arith, find-inside buf pos h))))),
  sym (drop-append (pos + 4) buf (joined cs) (find-inside buf pos h)),
)

small :
    (buf : List ℕ) (pos : ℕ)
    → length buf ≤ pos + 3
    → pos + 3 ≤ 64 * 1024
    → ltb (64 * 1024) (length buf) ≡ false
small buf pos h k = ground (arith, h, k)

pub read_head-HeadOf :
    (cs : Chunks) (buf : List ℕ) (pos : ℕ)
    → find_header_end buf ≡ none
    → find_header_end (buf ++ joined cs) ≡ some pos
    → pos + 3 ≤ 64 * 1024
    → HeadOf (buf ++ joined cs) pos (read_head buf cs)
unfolding read_head
read_head-HeadOf [] buf pos absent there fits =
    absurd
      (none≢some _ pos absent (subst (λ xs. find_header_end xs ≡ some pos) (append-nil buf) there))
read_head-HeadOf (c ∷ cs) buf pos absent there fits =
    let whole = append_assoc buf c (joined cs) in
    let there' = subst (λ xs. find_header_end xs ≡ some pos) (sym whole) there in
    subst (λ xs. HeadOf xs pos (read_head buf (c ∷ cs))) whole
      (elim (Option-cases (find_header_end (buf ++ c))) [
        | inl e ↦
            rw (e, small (buf ++ c) pos (find-bound (buf ++ c) (joined cs) pos there' e) fits)
              (read_head-HeadOf cs (buf ++ c) pos e there' fits)
        | inr (p, e) ↦
            found_here (buf ++ c) cs pos _
              (e ∙ ap some (some-injective _ p pos (find-append (buf ++ c) (joined cs) p e) there'))
      ])

-- The body from all the bytes at once.
abbrev pub whole_body : ℕ → List ℕ → Result SyncError (List ℕ)
whole_body n bytes =
    if leb n (length bytes) then ok (take n bytes) else err (http "conexión cortada en body")

abbrev pub only_body : Result SyncError (List ℕ × Chunks) → Result SyncError (List ℕ)
only_body (err e) = err e
only_body (ok (body, cs)) = ok body

leb-more : (n : ℕ) (xs ys : List ℕ) → leb n (length xs) ≡ true → leb n (length (xs ++ ys)) ≡ true
leb-more n xs ys h = ground (arith, h, length-append xs ys)

leb_le : (n m : ℕ) → leb n m ≡ true → n ≤ m
leb_le n m h = ground (arith, h)

enough :
    (n : ℕ) (body rest : List ℕ)
    → leb n (length body) ≡ true
    → ok (take n body) ≡ whole_body n (body ++ rest)
enough n body rest h =
    rw (leb-more n body rest h) (ap ok (sym (take-append n body rest (leb_le n (length body) h))))

pub read_body-whole_body :
    (n : ℕ) (cs : Chunks) (body : List ℕ)
    → only_body (read_body n body cs) ≡ whole_body n (body ++ joined cs)
unfolding read_body
read_body-whole_body n [] body = elim (Bool-cases (leb n (length body))) [
  | inl e ↦ rw (append-nil body, e) refl
  | inr e ↦ rw (append-nil body, e) refl
]
read_body-whole_body n (c ∷ cs) body = elim (Bool-cases (leb n (length body))) [
  | inl e ↦ rw e (enough n body (c ++ joined cs) e)
  | inr e ↦
      rw e (
        read_body-whole_body n cs (body ++ c) ∙ ap (whole_body n) (append_assoc body c (joined cs)))
]
