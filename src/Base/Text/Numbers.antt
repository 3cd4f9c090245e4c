-- ===== src/Base/Text/Numbers.antt =====
-- What `format!` writes for a number, `parse` reads.
use Prim.Native.Char.{code}
use Prim.Native.Nat.{ℕ, zero, suc, ◌+◌, ◌*◌, ◌/◌, ◌%◌, ◌≤◌, ◌<◌}
use Prim.Native.String.{String, ◌∷◌}
use mathlib.Core.Bool.{Bool, true, false}
use mathlib.Core.Logic.{inl, inr}
use mathlib.Core.Option.{Option, some}
use mathlib.Core.Path.{◌≡◌, refl, ap, ◌∙◌}
use native.Mathlib.Omega.{arith}
use ubod.Base.Tests.{ltb, ◌==◌, nat_eq, Bool-cases}
use ubod.Base.Text.{hex_digit, emit, decimal, digits, next_digit, parse_unsigned, every}

code-hex_digit : (n : ℕ) → n < 10 → code (hex_digit n) ≡ 48 + n
unfolding hex_digit
code-hex_digit zero h = refl
code-hex_digit (suc zero) h = refl
code-hex_digit (suc (suc zero)) h = refl
code-hex_digit (suc (suc (suc zero))) h = refl
code-hex_digit (suc (suc (suc (suc zero)))) h = refl
code-hex_digit (suc (suc (suc (suc (suc zero))))) h = refl
code-hex_digit (suc (suc (suc (suc (suc (suc zero)))))) h = refl
code-hex_digit (suc (suc (suc (suc (suc (suc (suc zero))))))) h = refl
code-hex_digit (suc (suc (suc (suc (suc (suc (suc (suc zero)))))))) h = refl
code-hex_digit (suc (suc (suc (suc (suc (suc (suc (suc (suc zero))))))))) h = refl
code-hex_digit (suc (suc (suc (suc (suc (suc (suc (suc (suc (suc n)))))))))) h =
    absurd (omega (arith, h))

next_digit-hex_digit :
    (limit acc n : ℕ)
    → n < 10
    → acc * 10 + n ≤ limit
    → next_digit limit acc (code (hex_digit n)) ≡ some (acc * 10 + n)
next_digit-hex_digit limit acc n h k = rw (code-hex_digit n h) (ground arith)

digits-hex_digit :
    (limit acc n : ℕ) (out : String)
    → n < 10
    → acc * 10 + n ≤ limit
    → digits limit (some acc) (hex_digit n ∷ out) ≡ digits limit (some (acc * 10 + n)) out
unfolding digits
digits-hex_digit limit acc n out h k =
    ap (λ (o : Option ℕ). digits limit o out) (next_digit-hex_digit limit acc n h k)

first_digit :
    (limit n : ℕ) (out : String)
    → n < 10
    → n ≤ limit
    → parse_unsigned limit (hex_digit n ∷ out) ≡ digits limit (some n) out
unfolding parse_unsigned
first_digit limit n out h k =
    let no_plus : (code (hex_digit n) == b'+') ≡ false = rw (code-hex_digit n h) (ground arith) in
    rw no_plus (
      digits-hex_digit limit 0 n out h (omega arith)
      ∙ ap (λ (m : ℕ). digits limit (some m) out) (omega arith))

parse-emit :
    (limit fuel n : ℕ) (out : String)
    → n < fuel
    → n ≤ limit
    → parse_unsigned limit (emit fuel 10 n out) ≡ digits limit (some n) out
unfolding emit
parse-emit limit zero n out h k = absurd (omega (arith, h))
parse-emit limit (suc fuel) n out h k = elim (Bool-cases (ltb n 10)) [
  | inl small ↦ rw small (first_digit limit n out (ground arith) k)
  | inr big ↦ rw big (
      parse-emit limit fuel (n / 10) (hex_digit (n % 10) ∷ out) (ground arith) (ground arith)
      ∙ digits-hex_digit limit (n / 10) (n % 10) out (ground arith) (ground arith)
      ∙ ap (λ (m : ℕ). digits limit (some m) out) (omega arith))
]

pub parse_unsigned-decimal : (limit n : ℕ) → n ≤ limit → parse_unsigned limit (decimal n) ≡ some n
unfolding decimal digits
parse_unsigned-decimal limit n h = parse-emit limit (suc n) n "" (omega arith) h

-- A number is written in digits alone.
every-emit :
    (p : ℕ → Bool) (digit_ok : (d : ℕ) → d < 10 → p (48 + d) ≡ true) (fuel n : ℕ) (out : String)
    → every p out ≡ true
    → every p (emit fuel 10 n out) ≡ true
unfolding emit
every-emit p digit_ok zero n out h = h
every-emit p digit_ok (suc fuel) n out h = elim (Bool-cases (ltb n 10)) [
  | inl small ↦ rw (small, code-hex_digit n (ground arith), digit_ok n (ground arith)) h
  | inr big ↦ rw big (
      every-emit p digit_ok fuel (n / 10) (hex_digit (n % 10) ∷ out)
        (rw (code-hex_digit (n % 10) (omega arith), digit_ok (n % 10) (omega arith)) h))
]

pub every-decimal :
    (p : ℕ → Bool) → ((d : ℕ) → d < 10 → p (48 + d) ≡ true) → (n : ℕ) → every p (decimal n) ≡ true
unfolding decimal
every-decimal p digit_ok n = every-emit p digit_ok (suc n) n "" refl
