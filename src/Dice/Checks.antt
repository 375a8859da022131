-- ===== src/Dice/Checks.antt =====
-- The checks of services/dice.py: the expression that is built is read back, and what is decided.
use Prim.Native.Char.{Char, code}
use text.Mathlib.TextLemmas.{cons-append, nil-append, cons-ne-nil}
use mai_bot_trpg_plugin.Prelude.{
  ℕ, suc, ◌≤◌, String, ◌≡◌, refl, ◌∙◌, ap, ◌↔◌, Bool, false, not, ◌&&◌, ◌||◌, some, [], ◌∷◌, arith,
  Bool-cases, inl, inr, nat_beq, ◌==◌, string_eq, beq_ne, if◌then◌else◌,
}
use mai_bot_trpg_plugin.Prelude.Int.{
  ℤ, pos, negsuc, ◌+ℤ◌, ◌<ℤ◌, leb_ℤ, eqb_ℤ, int_laws, eq_of_parts,
}
use mai_bot_trpg_plugin.Prelude.Chars.{lower_char, lower, ◌+++◌}
use mai_bot_trpg_plugin.Prelude.Numbers.{
  show_signed, is_digit, AllChars, show_nat-AllChars, span_digits, parse_digits-show_nat,
}
use mai_bot_trpg_plugin.Dice.Random.{Random, draw}
use mai_bot_trpg_plugin.Dice.Parse.{
  is_white, strip_left, strip_right, drop_spaces, normalise, parse_simple, parse_dice,
  parse_modifier, after_d,
}
use mai_bot_trpg_plugin.Dice.Roll.{
  DiceService, DiceResult, rolled, unless, simple_result, roll_simple, roll_parsed, roll,
}
use mai_bot_trpg_plugin.Dice.Check.{
  total_modifier, check_expression, judge, finish_check, roll_check, compare_totals, finish_opposed,
  opposed_by, roll_opposed,
}
use mai_bot_trpg_plugin.Dice.Bounds.{IsFace, check_limits_iff}

parse_modifier-show_signed : (m : ℤ) → parse_modifier (show_signed m) ≡ some m
unfolding parse_modifier show_signed
parse_modifier-show_signed (pos n) = rw (parse_digits-show_nat n)
parse_modifier-show_signed (negsuc n) =
    rw (parse_digits-show_nat (suc n)) (ap some (omega int_laws))

span_digits-show_signed : (m : ℤ) → span_digits (show_signed m) ≡ ("", show_signed m)
unfolding span_digits is_digit show_signed
span_digits-show_signed (pos n) = refl
span_digits-show_signed (negsuc n) = refl

abbrev d20 : String → String
d20 x = String.◌∷◌ "d" (String.◌∷◌ "2" (String.◌∷◌ "0" x))

d20-append : (x : String) → "d20" +++ x ≡ d20 x
d20-append x =
    cons-append "d" "20" x
    ∙ ap (String.◌∷◌ "d") (
        cons-append "2" "0" x
        ∙ ap (String.◌∷◌ "2") (cons-append "0" "" x ∙ ap (String.◌∷◌ "0") (nil-append x)))

parse_dice-d20 : (x : String) → span_digits x ≡ ("", x) → parse_dice (d20 x) ≡ some (1, 20, x)
unfolding parse_dice span_digits is_digit after_d
parse_dice-d20 x h = rw h

parse_simple-d20 : (m : ℤ) → parse_simple (d20 (show_signed m)) ≡ some (1, 20, m)
unfolding parse_simple
parse_simple-d20 m =
    rw (parse_dice-d20 (show_signed m) (span_digits-show_signed m), parse_modifier-show_signed m)

-- The characters that `roll` leaves as they are.
abbrev IsPlain : Char → Type 0
IsPlain c = (is_white c ≡ false) × (lower_char c ≡ c) × (nat_beq (code c) 32 ≡ false)

digit-IsPlain : (c : Char) → b'0' ≤ code c → code c ≤ b'9' → IsPlain c
unfolding is_white lower_char
digit-IsPlain c h k = (ground arith, ground arith, ground arith)

strip_right_plain : (s : String) → AllChars IsPlain s → strip_right s ≡ s
unfolding strip_right
strip_right_plain String.[] h = refl
strip_right_plain (String.◌∷◌ c s) h = rw (h.0.0, strip_right_plain s h.1)

lower_plain : (s : String) → AllChars IsPlain s → lower s ≡ s
unfolding lower
lower_plain String.[] h = refl
lower_plain (String.◌∷◌ c s) h = rw (h.0.1, lower_plain s h.1)

drop_spaces_plain : (s : String) → AllChars IsPlain s → drop_spaces s ≡ s
unfolding drop_spaces
drop_spaces_plain String.[] h = refl
drop_spaces_plain (String.◌∷◌ c s) h = rw (h.0.2, drop_spaces_plain s h.1)

strip_left_plain : (s : String) → AllChars IsPlain s → strip_left s ≡ s
unfolding strip_left
strip_left_plain String.[] h = refl
strip_left_plain (String.◌∷◌ c s) h = rw h.0.0

d20-IsPlain : (m : ℤ) → AllChars IsPlain (d20 (show_signed m))
unfolding show_signed is_white lower_char
d20-IsPlain (pos n) =
    let digits = show_nat-AllChars IsPlain digit-IsPlain n in
    ((refl, refl, refl), ((refl, refl, refl), ((refl, refl, refl), ((refl, refl, refl), digits))))
d20-IsPlain (negsuc n) =
    let digits = show_nat-AllChars IsPlain digit-IsPlain (suc n) in
    ((refl, refl, refl), ((refl, refl, refl), ((refl, refl, refl), ((refl, refl, refl), digits))))

normalise-d20 : (m : ℤ) → normalise (d20 (show_signed m)) ≡ d20 (show_signed m)
unfolding normalise
normalise-d20 m =
    let x = d20 (show_signed m) in
    let plain = d20-IsPlain m in
    let same : drop_spaces (lower (strip_right (strip_left x))) ≡ x =
      ap (λ (y : String). drop_spaces (lower (strip_right y))) (strip_left_plain x plain)
      ∙ ap (λ (y : String). drop_spaces (lower y)) (strip_right_plain x plain)
      ∙ ap drop_spaces (lower_plain x plain)
      ∙ drop_spaces_plain x plain in
    let filled : (x == "") ≡ false =
      beq_ne x "" (cons-ne-nil "d" (String.◌∷◌ "2" (String.◌∷◌ "0" (show_signed m)))) in
    ap (λ (y : String). if y == "" then "d20" else y) same ∙ rw filled

-- The expression of a check is read back as one die of twenty with the modifier.
check_expression_lem :
    (m : ℤ)
    → (normalise (check_expression m) ≡ check_expression m)
      × (parse_simple (check_expression m) ≡ some (1, 20, m))
check_expression_lem m = elim (Bool-cases (eqb_ℤ m (pos 0))) [
  | inl plain ↦
      let e : check_expression m ≡ "d20" = unfold check_expression in rw plain in
      let z : pos 0 ≡ m = ground (arith, eq_of_parts (pos 0) m) in
      rw e (unfold normalise in refl, unfold parse_simple in ap (λ k. some (1, 20, k)) z)
  | inr other ↦
      let e : check_expression m ≡ d20 (show_signed m) =
        unfold check_expression in rw other (d20-append (show_signed m)) in
      rw e (normalise-d20 m, parse_simple-d20 m)
]

roll-check_expression :
    (rng : Random) (d : DiceService) (m : ℤ) (s : rng.State)
    → 1 ≤ d.max_dice_count
    → 20 ≤ d.max_dice_sides
    → roll rng d (check_expression m) s ≡ rolled (simple_result rng (check_expression m) 1 20 m s)
roll-check_expression rng d m s h k =
    let (same, parts) = check_expression_lem m in
    let allowed = (check_limits_iff d 1 20).1 (omega arith, h, omega arith, k) in
    unfold roll in
    rw (same, parts) (unfold roll_parsed roll_simple in rw allowed (unfold unless in refl))

-- A check never fails to roll where the service takes one die of twenty: it rolls a face from 1 to 20,
-- its total is that face with the modifiers, and it succeeds on a 20, fails on a 1, and succeeds
-- between them exactly when the total reaches the difficulty.
pub roll_check_lem :
    (rng : Random) (d : DiceService) (attribute_value difficulty modifier : ℤ) (s : rng.State)
    → 1 ≤ d.max_dice_count
    → 20 ≤ d.max_dice_sides
    → (face : ℕ) × (r : DiceResult) × (success : Bool) × (text : String) × (t : rng.State)
      × (roll_check rng d attribute_value difficulty modifier s ≡ rolled (r, success, text, t))
      × IsFace 20 face
      × (r.rolls ≡ face ∷ [])
      × (r.total ≡ pos face +ℤ total_modifier attribute_value modifier)
      × (success ≡ (nat_beq face 20 || not (nat_beq face 1) && leb_ℤ difficulty r.total))
roll_check_lem rng d attribute_value difficulty modifier s h k =
    let m = total_modifier attribute_value modifier in
    let run = roll-check_expression rng d m s h k in
    let (r, t) = simple_result rng (check_expression m) 1 20 m s in
    let (success, text) = judge difficulty r in
    (
      (rng.randint 1 20 s).0,
      record r { description = text },
      success,
      text,
      t,
      unfold roll_check in ap (finish_check rng d difficulty) run ∙ unfold finish_check in refl,
      rng.randint_range 1 20 s (omega arith),
      unfold simple_result draw in refl,
      unfold simple_result draw in omega int_laws,
      unfold judge simple_result draw in ground arith,
    )

compare_totals_winner :
    (a b : ℤ)
    → (((compare_totals a b).0 ≡ pos 1) ↔ (b <ℤ a))
      × (((compare_totals a b).0 ≡ negsuc 0) ↔ (a <ℤ b))
unfolding compare_totals
compare_totals_winner a b =
    ((λ e. ground arith, λ e. ground arith), (λ e. ground arith, λ e. ground arith))

-- An opposed check never fails to roll where the service takes one die of twenty: each side rolls a
-- face from 1 to 20, each total is that face with the modifiers of the side, and the higher total wins.
pub roll_opposed_lem :
    (rng : Random) (d : DiceService) (attr1 attr2 mod1 mod2 : ℤ) (s : rng.State)
    → 1 ≤ d.max_dice_count
    → 20 ≤ d.max_dice_sides
    → (r q : DiceResult) × (winner : ℤ) × (text : String) × (t : rng.State) × (a : ℕ) × (b : ℕ)
      × (roll_opposed rng d attr1 attr2 mod1 mod2 s ≡ rolled (r, q, winner, text, t))
      × IsFace 20 a
      × IsFace 20 b
      × (r.total ≡ pos a +ℤ total_modifier attr1 mod1)
      × (q.total ≡ pos b +ℤ total_modifier attr2 mod2)
      × ((winner ≡ pos 1) ↔ (q.total <ℤ r.total))
      × ((winner ≡ negsuc 0) ↔ (r.total <ℤ q.total))
roll_opposed_lem rng d attr1 attr2 mod1 mod2 s h k =
    let m = total_modifier attr1 mod1 in
    let n = total_modifier attr2 mod2 in
    let (r, t) = simple_result rng (check_expression m) 1 20 m s in
    let (q, u) = simple_result rng (check_expression n) 1 20 n t in
    let (winner, text) = compare_totals r.total q.total in
    (
      r,
      q,
      winner,
      text,
      u,
      (rng.randint 1 20 s).0,
      (rng.randint 1 20 t).0,
      unfold roll_opposed in
          ap (opposed_by rng d n) (roll-check_expression rng d m s h k)
          ∙ unfold opposed_by in
            ap (finish_opposed rng d r) (roll-check_expression rng d n t h k)
            ∙ unfold finish_opposed in refl,
      rng.randint_range 1 20 s (omega arith),
      rng.randint_range 1 20 t (omega arith),
      unfold simple_result draw in omega int_laws,
      unfold simple_result draw in omega int_laws,
      (compare_totals_winner r.total q.total).0,
      (compare_totals_winner r.total q.total).1,
    )
