-- ===== src/DmEngine/Tidy.antt =====
-- The last steps of `clean_state_tags` in services/dm_engine.py, on a text without a run of white space.
use Prim.Native.Char.{Char, code}
use mai_bot_trpg_plugin.Prelude.{
  Bool-cases, inl, inr, String, ◌≡◌, refl, ap, Bool, true, false, ◌&&◌, [], nat_beq, arith,
  string_eq, ◌==◌, if◌then◌else◌,
}
use mai_bot_trpg_plugin.Prelude.Chars.{cons_filled}
use mai_bot_trpg_plugin.Dice.Parse.{is_white, strip_left, strip_right}
use mai_bot_trpg_plugin.DmEngine.Pattern.{
  Pattern, one, then_, at_least_one, matches, match_one, match_next, runs, replaced, replace_all,
}
use mai_bot_trpg_plugin.DmEngine.Tags.{spaces}
use mai_bot_trpg_plugin.DmEngine.Clean.{newline, tidy}

abbrev begins_white : String → Bool
begins_white String.[] = false
begins_white (String.◌∷◌ c s) = is_white c

-- The text that begins with the character `c` ends with white space.
abbrev last_white : Char → String → Bool
last_white c String.[] = is_white c
last_white c (String.◌∷◌ d s) = last_white d s

abbrev ends_white : String → Bool
ends_white String.[] = false
ends_white (String.◌∷◌ c s) = last_white c s

-- No white space follows white space.
abbrev IsSpaced : String → Type 0
IsSpaced String.[] = Unit
IsSpaced (String.◌∷◌ c s) = (is_white c && begins_white s ≡ false) × IsSpaced s

-- There is no run of white space, and none at either end.
pub record IsTidy (text : String) : Type 0 where
  pub spaced : IsSpaced text
  pub begins : begins_white text ≡ false
  pub ends : ends_white text ≡ false

strip_left-tidy : (s : String) → begins_white s ≡ false → strip_left s ≡ s
unfolding strip_left
strip_left-tidy String.[] h = refl
strip_left-tidy (String.◌∷◌ c s) h = rw h

strip_right-tidy : (s : String) → ends_white s ≡ false → strip_right s ≡ s
unfolding strip_right
strip_right-tidy String.[] h = refl
strip_right-tidy (String.◌∷◌ c String.[]) h = rw h
strip_right-tidy (String.◌∷◌ c (String.◌∷◌ d s)) h =
    let rest : strip_right (String.◌∷◌ d s) ≡ String.◌∷◌ d s =
      strip_right-tidy (String.◌∷◌ d s) h in
    step c (strip_right (String.◌∷◌ d s)) (String.◌∷◌ d s) rest (cons_filled d s)
  where
    step :
        (c : Char) (rest s : String)
        → rest ≡ s
        → (s == "") ≡ false
        → (if is_white c && rest == "" then String.[] else String.◌∷◌ c rest) ≡ String.◌∷◌ c s
    step c rest s e h = ground (arith, e, h, ap (String.◌∷◌ c) e)

newline_white : (c : Char) → nat_beq (code c) 10 ≡ true → is_white c ≡ true
unfolding is_white
newline_white c h = ground arith

space_white : (c : Char) → nat_beq (code c) 32 ≡ true → is_white c ≡ true
unfolding is_white
space_white c h = ground arith

-- Where no white space follows, nothing more of the pattern is found.
line-none : (s : String) → begins_white s ≡ false → matches (then_ spaces newline) s ≡ []
unfolding matches runs match_one match_next
line-none String.[] h = refl
line-none (String.◌∷◌ d s) h = elim (Bool-cases (nat_beq (code d) 10)) [
  | inl e ↦ absurd (cc (h, newline_white d e))
  | inr e ↦ rw (h, e) refl
]

space-none :
    (s : String) → begins_white s ≡ false → matches (at_least_one (λ c. nat_beq (code c) 32)) s ≡ []
unfolding matches match_one match_next
space-none String.[] h = refl
space-none (String.◌∷◌ d s) h = elim (Bool-cases (nat_beq (code d) 32)) [
  | inl e ↦ absurd (cc (h, space_white d e))
  | inr e ↦ rw e refl
]

-- A pattern of two parts, of which the first takes one character.
two-none :
    (p : Char → Bool) (rest : Pattern) (c : Char) (s : String)
    → (p c ≡ true → matches rest s ≡ [])
    → matches (then_ (one p) rest) (String.◌∷◌ c s) ≡ []
unfolding matches match_one match_next
two-none p rest c s h = elim (Bool-cases (p c)) [ inl e ↦ rw (e, h e) refl | inr e ↦ rw e refl ]

followed : (c : Char) (b : Bool) → is_white c && b ≡ false → is_white c ≡ true → b ≡ false
followed c b h k = ground (arith, h, k)

replace_all-none :
    (p : Char → Bool) (rest : Pattern) (by s : String)
    → ((c : Char) → p c ≡ true → is_white c ≡ true)
    → ((t : String) → begins_white t ≡ false → matches rest t ≡ [])
    → IsSpaced s
    → replace_all (then_ (one p) rest) by s 0 ≡ s
unfolding replace_all
replace_all-none p rest by String.[] white none_ h = refl
replace_all-none p rest by (String.◌∷◌ c s) white none_ h =
    rw (two-none p rest c s (λ e. none_ s (followed c (begins_white s) h.0 (white c e))))
      (unfold replaced in ap (String.◌∷◌ c) (replace_all-none p rest by s white none_ h.1))

-- Such a text is not changed.
pub tidy-same : (text : String) → IsTidy text → tidy text ≡ text
unfolding tidy
tidy-same text h =
    let lines =
      replace_all-none (λ c. nat_beq (code c) 10) (then_ spaces newline) "\n\n" text newline_white
        line-none h.spaced in
    let words =
      replace_all-none (λ c. nat_beq (code c) 32) (at_least_one (λ c. nat_beq (code c) 32)) " " text
        space_white space-none h.spaced in
    rw (lines, words, strip_left-tidy text h.begins, strip_right-tidy text h.ends) refl
