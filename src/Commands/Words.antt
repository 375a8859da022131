-- ===== src/Commands/Words.antt =====
-- The readings of an argument that the handlers of components/commands.py share: Python's `int` and
-- `isdigit` on ASCII digits (other digits, and `_` between digits, count as no number here), and
-- `rsplit(None, 1)` at spaces.
use Prim.Native.Char.{Char, code}
use mai_bot_trpg_plugin.Prelude.{
  ℕ, String, ◌≡◌, refl, Bool, ◌&&◌, Option, none, some, List, [], ◌∷◌, nat_beq, ◌==◌, string_eq,
  if◌then◌else◌,
}
use mai_bot_trpg_plugin.Prelude.Int.{ℤ, pos, neg_ℤ}
use mai_bot_trpg_plugin.Prelude.Numbers.{parse_digits}
use mai_bot_trpg_plugin.Prelude.Chars.{◌+++◌}

abbrev as_pos : Option ℕ → Option ℤ
as_pos none = none
as_pos (some n) = some (pos n)

abbrev as_neg : Option ℕ → Option ℤ
as_neg none = none
as_neg (some n) = some (neg_ℤ (pos n))

-- `int(text)` of a stripped text.
unfoldable pub parse_int : String → Option ℤ
unfolding parse_digits neg_ℤ
parse_int String.[] = none
parse_int (String.◌∷◌ c s) =
    if nat_beq (code c) b'-'
    then as_neg (parse_digits s)
    else if nat_beq (code c) b'+'
    then as_pos (parse_digits s)
    else as_pos (parse_digits (String.◌∷◌ c s))

parse_int_minus : parse_int "-120" ≡ some (neg_ℤ (pos 120))
unfolding parse_int
parse_int_minus = refl

abbrev is_space : Char → Bool
is_space c = nat_beq (code c) b' '

-- The text without the spaces at its end.
unfoldable pub rstrip : String → String
rstrip String.[] = String.[]
rstrip (String.◌∷◌ c s) =
    let rest = rstrip s in if is_space c && rest == "" then String.[] else String.◌∷◌ c rest

-- The text before and after the last space.
unfoldable pub split_last : String → Option (String × String)
split_last String.[] = none
split_last (String.◌∷◌ c s) = elim (split_last s) [
  | some (a, b) ↦ some (String.◌∷◌ c a, b)
  | none ↦ if is_space c then some (String.[], s) else none
]

unfoldable pub lstrip : String → String
lstrip String.[] = String.[]
lstrip (String.◌∷◌ c s) = if is_space c then lstrip s else String.◌∷◌ c s

-- `text.split(maxsplit=1)` of a stripped text: the first word and what follows, which may be empty.
unfoldable pub split_first : String → String × String
unfolding lstrip
split_first String.[] = (String.[], String.[])
split_first (String.◌∷◌ c s) =
    let (word, rest) = split_first s in
    if is_space c then (String.[], lstrip s) else (String.◌∷◌ c word, rest)

-- `" ".join(parts)`
unfoldable pub join_words : List String → String
join_words [] = ""
join_words (w ∷ []) = w
join_words (w ∷ v ∷ ws) = w +++ " " +++ join_words (v ∷ ws)
