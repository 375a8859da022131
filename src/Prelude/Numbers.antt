-- ===== src/Prelude/Numbers.antt =====
-- Python's `str(n)`, `int(s)` and `f"{n:+d}"` on decimal digits: the ten of ASCII.
use Prim.Native.Char.{Char, code}
use Prim.Native.String.{String}
use Prim.Native.Nat.{ℕ, zero, suc, ◌+◌, ◌-◌, ◌*◌, ◌/◌, ◌%◌, ◌≤◌, ◌<◌}
use mathlib.Core.Path.{◌≡◌, refl, sym, ◌∙◌, ap}
use mathlib.Core.Bool.{Bool, true, false, ◌&&◌}
use mathlib.Core.Option.{Option, none, some}
use mathlib.Core.Logic.{inl, inr}
use text.Mathlib.TextLemmas.{cons-append, nil-append}
use native.Mathlib.Omega.{arith}
use mai_bot_trpg_plugin.Prelude.Tests.{ltb, leb, if◌then◌else◌, Bool-cases}
use mai_bot_trpg_plugin.Prelude.Lists.{get_or}
use mai_bot_trpg_plugin.Prelude.Int.{ℤ, pos, negsuc}
use mai_bot_trpg_plugin.Prelude.Chars.{chars, ◌+++◌}

unfoldable pub is_digit : Char → Bool
is_digit c = leb b'0' (code c) && leb (code c) b'9'

-- The digits, behind the value `n` of those before.
unfoldable pub digits_from : ℕ → String → Option ℕ
unfolding is_digit
digits_from n String.[] = some n
digits_from n (String.◌∷◌ c s) =
    let rest = digits_from (n * 10 + (code c - b'0')) s in if is_digit c then rest else none

-- A text that `isdigit`, and its value.
unfoldable pub parse_digits : String → Option ℕ
unfolding digits_from
parse_digits String.[] = none
parse_digits (String.◌∷◌ c s) = digits_from 0 (String.◌∷◌ c s)

unfoldable pub digit_char : ℕ → Char
digit_char d = get_or (chars "0123456789") d "0"

code-digit_char : (d : ℕ) → d < 10 → code (digit_char d) ≡ b'0' + d
unfolding digit_char
code-digit_char zero h = refl
code-digit_char (suc zero) h = refl
code-digit_char (suc (suc zero)) h = refl
code-digit_char (suc (suc (suc zero))) h = refl
code-digit_char (suc (suc (suc (suc zero)))) h = refl
code-digit_char (suc (suc (suc (suc (suc zero))))) h = refl
code-digit_char (suc (suc (suc (suc (suc (suc zero)))))) h = refl
code-digit_char (suc (suc (suc (suc (suc (suc (suc zero))))))) h = refl
code-digit_char (suc (suc (suc (suc (suc (suc (suc (suc zero)))))))) h = refl
code-digit_char (suc (suc (suc (suc (suc (suc (suc (suc (suc zero))))))))) h = refl
code-digit_char (suc (suc (suc (suc (suc (suc (suc (suc (suc (suc d)))))))))) h =
    absurd (omega arith)

-- The digits of `n` before `out`. Each round drops a digit, so `n` rounds are enough.
emit : ℕ → ℕ → String → String
emit zero n out = out
emit (suc fuel) n out =
    let more = String.◌∷◌ (digit_char (n % 10)) out in
    elim (ltb n 10) [ true ↦ more | false ↦ emit fuel (n / 10) more ]

-- `str(n)`
unfoldable pub show_nat : ℕ → String
unfolding emit digit_char
show_nat n = emit (suc n) n String.[]

-- `str(n)` of an integer, and `f"{n:+d}"`.
unfoldable pub show_int : ℤ → String
unfolding show_nat
show_int (pos n) = show_nat n
show_int (negsuc n) = String.◌∷◌ "-" (show_nat (suc n))

unfoldable pub show_signed : ℤ → String
unfolding show_nat
show_signed (pos n) = String.◌∷◌ "+" (show_nat n)
show_signed (negsuc n) = String.◌∷◌ "-" (show_nat (suc n))

show_nat_example : show_nat 1207 ≡ "1207"
unfolding show_nat
show_nat_example = refl

-- The digits at the start of a text, and the rest.
unfoldable pub span_digits : String → String × String
unfolding is_digit
span_digits String.[] = (String.[], String.[])
span_digits (String.◌∷◌ c s) =
    let (digits, rest) = span_digits s in
    if is_digit c then (String.◌∷◌ c digits, rest) else (String.[], String.◌∷◌ c s)

is_digit-digit_char : (d : ℕ) → d < 10 → is_digit (digit_char d) ≡ true
unfolding is_digit
is_digit-digit_char d h = ground (arith, code-digit_char d h)

emit-append : (fuel n : ℕ) (s t : String) → emit fuel n s +++ t ≡ emit fuel n (s +++ t)
unfolding emit
emit-append zero n s t = refl
emit-append (suc fuel) n s t = elim (Bool-cases (ltb n 10)) [
  | inl small ↦ rw (emit, small) (cons-append (digit_char (n % 10)) s t)
  | inr large ↦
      rw (emit, large)
        (emit-append fuel (n / 10) (String.◌∷◌ (digit_char (n % 10)) s) t
          ∙ ap (emit fuel (n / 10)) (cons-append (digit_char (n % 10)) s t))
]

span_digits-emit :
    (fuel n : ℕ) (s : String)
    → span_digits (emit fuel n s) ≡ (emit fuel n (span_digits s).0, (span_digits s).1)
unfolding emit
span_digits-emit zero n s = refl
span_digits-emit (suc fuel) n s =
    let first : span_digits (String.◌∷◌ (digit_char (n % 10)) s)
        ≡ (String.◌∷◌ (digit_char (n % 10)) (span_digits s).0, (span_digits s).1) =
      unfold span_digits in rw (is_digit-digit_char (n % 10) (omega arith)) in
    elim (Bool-cases (ltb n 10)) [
      | inl small ↦ rw (emit, small) first
      | inr large ↦
          rw (emit, large)
            (span_digits-emit fuel (n / 10) (String.◌∷◌ (digit_char (n % 10)) s) ∙ rw first)
    ]

digits_from-digit_char :
    (m d : ℕ) (s : String)
    → d < 10
    → digits_from m (String.◌∷◌ (digit_char d) s) ≡ digits_from (m * 10 + d) s
unfolding digits_from
digits_from-digit_char m d s h =
    let e : m * 10 + (code (digit_char d) - b'0') ≡ m * 10 + d =
      omega (arith, code-digit_char d h) in
    rw (is_digit-digit_char d h, e)

digits_from-emit :
    (fuel n : ℕ) (s : String) → n < fuel → digits_from 0 (emit fuel n s) ≡ digits_from n s
unfolding emit
digits_from-emit zero n s h = absurd (omega arith)
digits_from-emit (suc fuel) n s h = elim (Bool-cases (ltb n 10)) [
  | inl small ↦
      let e : 0 * 10 + n % 10 ≡ n = ground arith in
      rw (emit, small) (digits_from-digit_char 0 (n % 10) s (omega arith) ∙ rw e)
  | inr large ↦
      let e : n / 10 * 10 + n % 10 ≡ n = omega arith in
      rw (emit, large)
        (digits_from-emit fuel (n / 10) (String.◌∷◌ (digit_char (n % 10)) s) (ground arith)
          ∙ digits_from-digit_char (n / 10) (n % 10) s (omega arith)
          ∙ rw e)
]

emit-cons :
    (fuel n : ℕ) (s : String) → (c : Char) × (t : String) × (emit (suc fuel) n s ≡ String.◌∷◌ c t)
unfolding emit
emit-cons zero n s = elim (Bool-cases (ltb n 10)) [
  | inl small ↦ (digit_char (n % 10), s, rw (emit, small) refl)
  | inr large ↦ (digit_char (n % 10), s, rw (emit, large) refl)
]
emit-cons (suc fuel) n s = elim (Bool-cases (ltb n 10)) [
  | inl small ↦ (digit_char (n % 10), s, rw (emit, small) refl)
  | inr large ↦
      let (c, t, e) = emit-cons fuel (n / 10) (String.◌∷◌ (digit_char (n % 10)) s) in
      (c, t, rw (emit, large) e)
]

pub parse_digits-show_nat : (n : ℕ) → parse_digits (show_nat n) ≡ some n
unfolding show_nat
parse_digits-show_nat n =
    let (c, t, e) = emit-cons n n String.[] in
    let read : parse_digits (String.◌∷◌ c t) ≡ some n =
      unfold parse_digits in
      ap (digits_from 0) (sym e)
      ∙ digits_from-emit (suc n) n String.[] (omega arith)
      ∙ unfold digits_from in refl in
    ap parse_digits e ∙ read

-- The digits of a number are cut off exactly where no digit follows.
pub span_digits-show_nat :
    (n : ℕ) (t : String)
    → (span_digits t).0 ≡ ""
    → span_digits (show_nat n +++ t) ≡ (show_nat n, (span_digits t).1)
unfolding show_nat
span_digits-show_nat n t h =
    ap span_digits (emit-append (suc n) n String.[] t)
    ∙ span_digits-emit (suc n) n _
    ∙ rw (nil-append t, h)

-- Every character of a text.
abbrev pub AllChars : (Char → Type 0) → String → Type 0
AllChars P String.[] = Unit
AllChars P (String.◌∷◌ c s) = P c × AllChars P s

emit-AllChars :
    (P : Char → Type 0)
    → ((d : ℕ) → d < 10 → P (digit_char d))
    → (fuel n : ℕ) (s : String) → AllChars P s
    → AllChars P (emit fuel n s)
unfolding emit
emit-AllChars P h zero n s k = k
emit-AllChars P h (suc fuel) n s k = elim (Bool-cases (ltb n 10)) [
  | inl small ↦ rw (emit, small) (h (n % 10) (omega arith), k)
  | inr large ↦ rw (emit, large) (emit-AllChars P h fuel (n / 10) _ (h (n % 10) (omega arith), k))
]

-- What holds of the characters between 0 and 9 holds of the characters of a printed number.
pub show_nat-AllChars :
    (P : Char → Type 0)
    → ((c : Char) → b'0' ≤ code c → code c ≤ b'9' → P c)
    → (n : ℕ) → AllChars P (show_nat n)
unfolding show_nat
show_nat-AllChars P h n =
    emit-AllChars P
      (λ d k.
        h (digit_char d) (omega (arith, code-digit_char d k)) (omega (arith, code-digit_char d k)))
      (suc n) n String.[] tt
