-- ===== src/DmEngine/Pattern.antt =====
-- The regular expressions that services/dm_engine.py uses, with the matches in the order in which
-- Python's `re` tries them: the first is the one that it takes.
use Prim.Native.Char.{Char, code}
use mai_bot_trpg_plugin.Prelude.{
  ℕ, zero, suc, ◌-◌, String, Bool, List, [], ◌∷◌, ◌++◌, nat_beq, if◌then◌else◌,
}
use mai_bot_trpg_plugin.Prelude.Chars.{lower_char, ◌+++◌}
use mai_bot_trpg_plugin.Dice.Roll.{text_length}

-- `many` is greedy and `some_lazy` lazy, with one character at least; the groups inside of
-- `maybe` are as many as its number says, and empty where it does not match.
pub data Pattern : Type 0 where
  one : (Char → Bool) → Pattern
  many : (Char → Bool) → Pattern
  some_lazy : (Char → Bool) → Pattern
  then_ : Pattern → Pattern → Pattern
  or_ : Pattern → Pattern → Pattern
  maybe : ℕ → Pattern → Pattern
  group : Pattern → Pattern
  nothing : Pattern

-- What is matched, the groups, and what follows.
abbrev pub Match : Type 0
Match = String × List String × String

abbrev pub empty_groups : ℕ → List String
empty_groups zero = []
empty_groups (suc n) = "" ∷ empty_groups n

abbrev pub add_char : Char → List Match → List Match
add_char c [] = []
add_char c ((u, gs, t) ∷ ms) = (String.◌∷◌ c u, gs, t) ∷ add_char c ms

abbrev pub add_group : List Match → List Match
add_group [] = []
add_group ((u, gs, t) ∷ ms) = (u, u ∷ gs, t) ∷ add_group ms

abbrev pub add_before : String → List String → List Match → List Match
add_before u gs [] = []
add_before u gs ((v, hs, t) ∷ ms) = (u +++ v, gs ++ hs, t) ∷ add_before u gs ms

-- The longest run first.
unfoldable pub runs : (Char → Bool) → String → List Match
runs p String.[] = ("", [], "") ∷ []
runs p (String.◌∷◌ c s) =
    let longer = add_char c (runs p s) in
    (if p c then longer else []) ++ ("", [], String.◌∷◌ c s) ∷ []

-- The shortest run first.
unfoldable pub lazy_runs : (Char → Bool) → String → List Match
lazy_runs p String.[] = []
lazy_runs p (String.◌∷◌ c s) =
    let longer = add_char c (lazy_runs p s) in if p c then (String.◌∷◌ c "", [], s) ∷ longer else []

unfoldable pub match_one : (Char → Bool) → String → List Match
match_one p String.[] = []
match_one p (String.◌∷◌ c s) = if p c then (String.◌∷◌ c "", [], s) ∷ [] else []

-- Each match, followed by the matches of what comes next.
unfoldable pub match_next : (String → List Match) → List Match → List Match
match_next next [] = []
match_next next ((u, gs, t) ∷ ms) = add_before u gs (next t) ++ match_next next ms

unfoldable pub matches : Pattern → String → List Match
unfolding runs lazy_runs match_one match_next
matches (one p) s = match_one p s
matches (many p) s = runs p s
matches (some_lazy p) s = lazy_runs p s
matches (then_ a b) s = match_next (matches b) (matches a s)
matches (or_ a b) s = matches a s ++ matches b s
matches (maybe n a) s = matches a s ++ ("", empty_groups n, s) ∷ []
matches (group a) s = add_group (matches a s)
matches nothing s = ("", [], s) ∷ []

abbrev pub at_least_one : (Char → Bool) → Pattern
at_least_one p = then_ (one p) (many p)

abbrev pub exactly : Char → Char → Bool
exactly c d = nat_beq (code c) (code d)

-- With `re.IGNORECASE`, by the letters A to Z.
abbrev pub any_case : Char → Char → Bool
any_case c d = nat_beq (code (lower_char c)) (code (lower_char d))

unfoldable pub word : (Char → Char → Bool) → String → Pattern
word same String.[] = nothing
word same (String.◌∷◌ c s) = then_ (one (same c)) (word same s)

unfoldable pub any_word : (Char → Char → Bool) → String → List String → Pattern
unfolding word
any_word same w [] = word same w
any_word same w (v ∷ ws) = or_ (word same w) (any_word same v ws)

-- `pattern.findall(s)`, of a pattern that matches no empty text; the number is that of the characters
-- of the match before that are still to be skipped. `next` is the search behind the character.
unfoldable pub found : (ℕ → List (List String)) → List Match → List (List String)
found next [] = next 0
found next ((u, gs, t) ∷ ms) = gs ∷ next (text_length u - 1)

unfoldable pub find_all : Pattern → String → ℕ → List (List String)
unfolding matches found
find_all r String.[] n = []
find_all r (String.◌∷◌ c s) (suc n) = find_all r s n
find_all r (String.◌∷◌ c s) zero = found (find_all r s) (matches r (String.◌∷◌ c s))

-- `re.sub(pattern, by, s)`, in the same way.
unfoldable pub replaced : Char → String → (ℕ → String) → List Match → String
replaced c by next [] = String.◌∷◌ c (next 0)
replaced c by next ((u, gs, t) ∷ ms) = by +++ next (text_length u - 1)

unfoldable pub replace_all : Pattern → String → String → ℕ → String
unfolding matches replaced
replace_all r by String.[] n = String.[]
replace_all r by (String.◌∷◌ c s) (suc n) = replace_all r by s n
replace_all r by (String.◌∷◌ c s) zero =
    replaced c by (replace_all r by s) (matches r (String.◌∷◌ c s))
