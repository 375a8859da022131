-- ===== src/Prelude/Chars.antt =====
-- `str.lower` and the tests on characters that the program uses.
use Prim.Native.Char.{Char, code}
use Prim.Native.String
use Prim.Native.String.{String}
use mathlib.Core.Path.{◌≡◌, refl}
use mathlib.Core.Bool.{◌&&◌, false}
use mathlib.Core.Logic.{inl, inr}
use mathlib.Core.List.{List, [], ◌∷◌}
use Prim.Native.Nat.{ℕ, zero, suc, ◌-◌}
use mai_bot_trpg_plugin.Prelude.Tests.{Bool-cases, leb, if◌then◌else◌}
use mai_bot_trpg_plugin.Prelude.Equality.{string_eq, ◌==◌}
use mai_bot_trpg_plugin.Prelude.Lists.{get_or}

abbrev pub chars : String → List Char
chars String.[] = []
chars (String.◌∷◌ c s) = c ∷ chars s

abbrev letters : List Char
letters = chars "abcdefghijklmnopqrstuvwxyz"

-- Only A to Z are changed. The words that the program compares a lowered text with
-- are in lower case already or have no case.
unfoldable pub lower_char : Char → Char
lower_char c =
    if leb b'A' (code c) && leb (code c) b'Z' then get_or letters (code c - b'A') c else c

unfoldable pub lower : String → String
unfolding lower_char
lower String.[] = String.[]
lower (String.◌∷◌ c s) = String.◌∷◌ (lower_char c) (lower s)

lower_example : lower "DEX 力量" ≡ "dex 力量"
unfolding lower
lower_example = refl

-- Joining texts.
infixr 65 ◌+++◌
abbrev pub ◌+++◌ : String → String → String
s +++ t = String.◌++◌ s t

unfoldable pub take_text : ℕ → String → String
take_text zero s = ""
take_text (suc n) String.[] = String.[]
take_text (suc n) (String.◌∷◌ c s) = String.◌∷◌ c (take_text n s)

-- A text with a character is not empty.
pub cons_filled : (c : Char) (s : String) → (String.◌∷◌ c s == "") ≡ false
cons_filled c s = elim (Bool-cases (String.◌∷◌ c s == "")) [
  | inl e ↦ absurd (cc ((string_eq.beq_iff (String.◌∷◌ c s) "").0 e))
  | inr e ↦ e
]
