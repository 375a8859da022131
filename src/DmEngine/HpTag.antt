-- ===== src/DmEngine/HpTag.antt =====
-- The tag of hit points in a response, in services/dm_engine.py.
use Prim.Native.Char.{Char, code}
use text.Mathlib.TextLemmas.{cons-append, nil-append}
use mathlib.Core.Path.{subst}
use mai_bot_trpg_plugin.Prelude.{
  ℕ, ◌≤◌, String, ◌≡◌, ◌≢◌, refl, sym, ◌∙◌, ap, Bool, true, false, ◌||◌, [], ◌∷◌, arith, string_eq,
}
use mai_bot_trpg_plugin.Prelude.Chars.{◌+++◌, lower_char}
use mai_bot_trpg_plugin.Prelude.Numbers.{
  AllChars, is_digit, show_nat, show_nat-AllChars, parse_digits, parse_digits-show_nat,
}
use mai_bot_trpg_plugin.Dice.Parse.{is_white, is_plus, is_minus}
use mai_bot_trpg_plugin.DmEngine.Pattern.{
  one, many, then_, group, at_least_one, exactly, any_case, matches, match_one, match_next, word,
  any_word,
}
use mai_bot_trpg_plugin.DmEngine.Tags.{number_pattern, spaces, hp_body, tag, hp_tag}
use mai_bot_trpg_plugin.DmEngine.Takes.{
  Takes, then_-Takes, group-Takes, maybe-Takes, one-Takes, many-Takes,
}

-- A digit.
abbrev pub IsDigit : Char → Type 0
IsDigit c = is_digit c ≡ true

pub code-IsDigit : (c : Char) → b'0' ≤ code c → code c ≤ b'9' → IsDigit c
unfolding is_digit
code-IsDigit c h k = ground arith

single-append : (c : Char) (s : String) → String.◌∷◌ c "" +++ s ≡ String.◌∷◌ c s
single-append c s = cons-append c "" s ∙ ap (String.◌∷◌ c) (nil-append s)

-- A run of one character and more.
at_least_one-Takes :
    (p : Char → Bool) (d : String) (c : Char) (s : String)
    → d ≢ ""
    → AllChars (λ x. p x ≡ true) d
    → p c ≡ false
    → Takes (at_least_one p) (d +++ String.◌∷◌ c s) (d, [], String.◌∷◌ c s)
at_least_one-Takes p String.[] c s filled h k = absurd (filled refl)
at_least_one-Takes p (String.◌∷◌ x d) c s filled h k =
    let t = String.◌∷◌ c s in
    let both =
      then_-Takes (one p) (many p) (String.◌∷◌ x (d +++ t)) (String.◌∷◌ x "") d (d +++ t) t [] []
        (one-Takes p x (d +++ t) h.0) (many-Takes p d c s h.1 k) in
    subst (λ y. Takes (at_least_one p) y (String.◌∷◌ x d, [], t)) (sym (cons-append x d t))
      (subst (λ u. Takes (at_least_one p) (String.◌∷◌ x (d +++ t)) (u, [], t)) (single-append x d)
        both)

show_nat_filled : (n : ℕ) → show_nat n ≢ ""
unfolding parse_digits
show_nat_filled n e = let empty = ap parse_digits e in absurd (cc (empty, parse_digits-show_nat n))

-- The sign of a number, and its digits up to a bracket.
abbrev pub signed_text : Char → ℕ → String → String
signed_text sign n post = String.◌∷◌ sign (show_nat n +++ String.◌∷◌ "]" post)

abbrev pub is_sign : Char → Bool
is_sign c = is_plus c || is_minus c

number-Takes :
    (sign : Char) (n : ℕ) (post : String)
    → is_sign sign ≡ true
    → Takes number_pattern
        (signed_text sign n post)
        (String.◌∷◌ sign (show_nat n), [], String.◌∷◌ "]" post)
unfolding is_digit
number-Takes sign n post h =
    let d = show_nat n in
    let t = String.◌∷◌ "]" post in
    let digits =
      at_least_one-Takes is_digit d "]" post (show_nat_filled n)
        (show_nat-AllChars IsDigit code-IsDigit n) refl in
    let signed =
      maybe-Takes 0 (one is_sign) (signed_text sign n post) (String.◌∷◌ sign "", [], d +++ t)
        (one-Takes is_sign sign (d +++ t) h) in
    subst (λ u. Takes number_pattern (signed_text sign n post) (u, [], t)) (single-append sign d)
      (then_-Takes _ _ (signed_text sign n post) (String.◌∷◌ sign "") d (d +++ t) t [] [] signed
        digits)

-- `[HP ` in front of a text.
abbrev pub hp_text : String → String
hp_text s = String.◌∷◌ "[" (String.◌∷◌ "H" (String.◌∷◌ "P" (String.◌∷◌ " " s)))

hp_words-Takes :
    (s : String)
    → Takes
        (any_word any_case "HP" ("生命值" ∷ "生命" ∷ []))
        (String.◌∷◌ "H" (String.◌∷◌ "P" s))
        ("HP", [], s)
unfolding matches match_one match_next word any_word lower_char
hp_words-Takes s = ([], refl)

space-Takes :
    (c : Char) (s : String)
    → is_white c ≡ false
    → Takes (many is_white) (String.◌∷◌ " " (String.◌∷◌ c s)) (" ", [], String.◌∷◌ c s)
space-Takes c s h =
    subst (λ y. Takes (many is_white) y (" ", [], String.◌∷◌ c s))
      (cons-append " " "" (String.◌∷◌ c s) ∙ ap (String.◌∷◌ " ") (nil-append (String.◌∷◌ c s)))
      (many-Takes is_white " " c s (unfold is_white in refl, tt) h)

-- The tag is taken whole, with the number as its group.
pub hp_tag-Takes :
    (sign : Char) (n : ℕ) (post : String)
    → is_sign sign ≡ true
    → is_white sign ≡ false
    → (u : String) × Takes hp_tag
        (hp_text (signed_text sign n post))
        (u, String.◌∷◌ sign (show_nat n) ∷ [], post)
unfolding hp_tag tag
hp_tag-Takes sign n post h k =
    let after = signed_text sign n post in
    let shown = String.◌∷◌ sign (show_nat n) in
    let close = String.◌∷◌ "]" post in
    let value = group-Takes number_pattern after shown close [] (number-Takes sign n post h) in
    let spaced =
      then_-Takes spaces (group number_pattern) (String.◌∷◌ " " after) " " shown after close []
        (shown ∷ []) (space-Takes sign (show_nat n +++ close) k) value in
    let body =
      then_-Takes _ (then_ spaces (group number_pattern))
        (String.◌∷◌ "H" (String.◌∷◌ "P" (String.◌∷◌ " " after))) "HP" (" " +++ shown)
        (String.◌∷◌ " " after) close [] (shown ∷ []) (hp_words-Takes (String.◌∷◌ " " after))
        spaced in
    let closed =
      then_-Takes hp_body (one (exactly "]")) _ _ "]" close post (shown ∷ []) [] body
        (one-Takes (exactly "]") "]" post refl) in
    (
      _,
      then_-Takes (one (exactly "[")) (then_ hp_body (one (exactly "]"))) (hp_text after) "[" _ _
          post [] (shown ∷ []) (one-Takes (exactly "[") "[" _ refl) closed,
    )
