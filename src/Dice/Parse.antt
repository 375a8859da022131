-- ===== src/Dice/Parse.antt =====
-- The expressions of services/dice.py. The patterns read digits, a `d` and signs, of which no two can
-- stand for each other, so that a match is read from left to right.
use Prim.Native.Char.{Char, code}
use mai_bot_trpg_plugin.Prelude.{
  ℕ, String, ◌≡◌, refl, Bool, true, false, ◌&&◌, ◌||◌, Option, none, some, nat_beq, leb, ◌==◌,
  string_eq, if◌then◌else◌,
}
use mai_bot_trpg_plugin.Prelude.Int.{ℤ, pos, neg_ℤ}
use mai_bot_trpg_plugin.Prelude.Chars.{lower}
use mai_bot_trpg_plugin.Prelude.Numbers.{parse_digits, span_digits}
use mai_bot_trpg_plugin.Json.{◌>>=◌}

-- `c.isspace()`, which is what `strip` and `\s` go by.
unfoldable pub is_white : Char → Bool
is_white c =
    let n = code c in
    leb 9 n && leb n 13
    || leb 28 n && leb n 32
    || nat_beq n 133
    || nat_beq n 160
    || nat_beq n 5760
    || leb 8192 n && leb n 8202
    || leb 8232 n && leb n 8233
    || nat_beq n 8239
    || nat_beq n 8287
    || nat_beq n 12288

unfoldable pub strip_left : String → String
unfolding is_white
strip_left String.[] = String.[]
strip_left (String.◌∷◌ c s) = let rest = strip_left s in if is_white c then rest else String.◌∷◌ c s

unfoldable pub strip_right : String → String
unfolding is_white
strip_right String.[] = String.[]
strip_right (String.◌∷◌ c s) =
    let rest = strip_right s in if is_white c && rest == "" then String.[] else String.◌∷◌ c rest

-- `s.replace(" ", "")`
unfoldable pub drop_spaces : String → String
drop_spaces String.[] = String.[]
drop_spaces (String.◌∷◌ c s) =
    let rest = drop_spaces s in if nat_beq (code c) 32 then rest else String.◌∷◌ c rest

-- The first lines of `roll`.
unfoldable pub normalise : String → String
unfolding strip_left strip_right drop_spaces lower
normalise expression =
    let e = drop_spaces (lower (strip_right (strip_left expression))) in
    if e == "" then "d20" else e

abbrev pub is_plus : Char → Bool
is_plus c = nat_beq (code c) b'+'

abbrev pub is_minus : Char → Bool
is_minus c = nat_beq (code c) b'-'

-- `int(s) if s else d`, of a text of digits.
abbrev pub number_or : ℕ → String → ℕ
number_or d s = elim (parse_digits s) [ none ↦ d | some n ↦ n ]

-- `([+-]\d+)?$`
unfoldable pub parse_modifier : String → Option ℤ
unfolding parse_digits neg_ℤ
parse_modifier String.[] = some (pos 0)
parse_modifier (String.◌∷◌ c s) =
    if is_plus c
    then (parse_digits s >>= λ n. some (pos n))
    else if is_minus c
    then (parse_digits s >>= λ n. some (neg_ℤ (pos n)))
    else none

-- The text behind a `d`.
unfoldable pub after_d : String → Option String
after_d String.[] = none
after_d (String.◌∷◌ c s) = if nat_beq (code c) b'd' then some s else none

-- `(\d*)d(\d+)`: the count, which is 1 where it is left out, the sides, and what follows.
unfoldable pub parse_dice : String → Option (ℕ × ℕ × String)
unfolding span_digits after_d parse_digits
parse_dice s = do
  rest ← after_d (span_digits s).1
  sides ← parse_digits (span_digits rest).0
  some (number_or 1 (span_digits s).0, sides, (span_digits rest).1)

-- DICE_PATTERN: count, sides and modifier.
unfoldable pub parse_simple : String → Option (ℕ × ℕ × ℤ)
unfolding parse_dice parse_modifier
parse_simple s = do
  (count, sides, rest) ← parse_dice s
  modifier ← parse_modifier rest
  some (count, sides, modifier)

-- A term of a complex expression, behind its sign.
pub data Term : Type 0 where
  dice : (count sides : ℕ) → Term
  number : ℕ → Term

-- `\d*d\d+|\d+`, the first that matches, and what follows.
unfoldable pub term_of : String → Option (ℕ × ℕ × String) → Option (Term × String)
unfolding parse_digits span_digits
term_of s (some (count, sides, rest)) = some (dice count sides, rest)
term_of s none = do n ← parse_digits (span_digits s).0; some (number n, (span_digits s).1)

unfoldable pub parse_term : String → Option (Term × String)
unfolding parse_dice term_of
parse_term s = term_of s (parse_dice s)

-- `[+-]`, and whether it is a plus.
unfoldable pub parse_sign : String → Option (Bool × String)
parse_sign String.[] = none
parse_sign (String.◌∷◌ c s) =
    if is_plus c then some (true, s) else if is_minus c then some (false, s) else none

parse_simple_example : parse_simple "2d10-2" ≡ some (2, 10, neg_ℤ (pos 2))
unfolding parse_simple
parse_simple_example = refl
