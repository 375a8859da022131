-- ===== src/Dice/Bounds.antt =====
-- What a simple roll of services/dice.py gives, and when it fails.
use mai_bot_trpg_plugin.Prelude.{
  ℕ, zero, suc, ◌*◌, ◌≤◌, String, ◌≡◌, refl, ◌↔◌, Option, none, some, List, [], ◌∷◌, arith, length,
  All,
}
use mai_bot_trpg_plugin.Prelude.Int.{ℤ, pos, ◌+ℤ◌, ◌≤ℤ◌, int_laws}
use mai_bot_trpg_plugin.Dice.Random.{Random, draw}
use mai_bot_trpg_plugin.Dice.Roll.{
  DiceService, DiceResult, DiceError, rolled, add_rolls, check_limits, unless, simple_result,
  roll_simple,
}

-- A face of a die.
abbrev pub IsFace : ℕ → ℕ → Type 0
IsFace sides r = (1 ≤ r) × (r ≤ sides)

draw-length :
    (rng : Random) (count sides : ℕ) (s : rng.State) → length (draw rng count sides s).0 ≡ count
unfolding draw
draw-length rng zero sides s = refl
draw-length rng (suc count) sides s =
    omega (arith, draw-length rng count sides (rng.randint 1 sides s).1)

draw-All :
    (rng : Random) (count sides : ℕ) (s : rng.State)
    → 1 ≤ sides
    → All (IsFace sides) (draw rng count sides s).0
unfolding draw
draw-All rng zero sides s h = tt
draw-All rng (suc count) sides s h =
    (rng.randint_range 1 sides s h, draw-All rng count sides (rng.randint 1 sides s).1 h)

add_rolls_bounds :
    (sides : ℕ) (rs : List ℕ)
    → All (IsFace sides) rs
    → (length rs ≤ add_rolls rs) × (add_rolls rs ≤ length rs * sides)
add_rolls_bounds sides [] h = (omega arith, omega arith)
add_rolls_bounds sides (r ∷ rs) (f, h) =
    let (lo, hi) = add_rolls_bounds sides rs h in (omega (arith, lo, f), omega (arith, hi, f))

-- The count and the sides that the service takes.
abbrev pub IsAllowed : DiceService → ℕ → ℕ → Type 0
IsAllowed d count sides =
    (1 ≤ count) × (count ≤ d.max_dice_count) × (1 ≤ sides) × (sides ≤ d.max_dice_sides)

pub check_limits_iff :
    (d : DiceService) (count sides : ℕ)
    → (check_limits d count sides ≡ none) ↔ IsAllowed d count sides
unfolding check_limits
check_limits_iff d count sides = (λ e. ground arith, λ h. ground arith)

unless_rolled : {A : Type 0} (o : Option DiceError) (a b : A) → unless o a ≡ rolled b → o ≡ none
unfolding unless
unless_rolled none a b e = refl
unless_rolled (some error) a b e = absurd (cc e)

-- A simple roll within the limits gives one face of the die for each that is rolled, and their sum
-- with the modifier as the total, which lies between the lowest and the highest sum with the modifier.
-- Outside the limits it gives no result.
pub roll_simple_lem :
    (rng : Random) (d : DiceService) (expression : String) (count sides : ℕ) (modifier : ℤ)
    (s : rng.State)
    → (IsAllowed d count sides
        → (r : DiceResult) × (t : rng.State) × (roll_simple rng d expression
              (count, sides, modifier)
              s
            ≡ rolled (r, t))
          × (length r.rolls ≡ count)
          × All (IsFace sides) r.rolls
          × (r.total ≡ pos (add_rolls r.rolls) +ℤ modifier)
          × (pos count +ℤ modifier ≤ℤ r.total)
          × (r.total ≤ℤ pos (count * sides) +ℤ modifier))
      × ((r : DiceResult) (t : rng.State)
          → roll_simple rng d expression (count, sides, modifier) s ≡ rolled (r, t)
          → IsAllowed d count sides)
unfolding roll_simple
roll_simple_lem rng d expression count sides modifier s = (
  λ h.
      let faces = draw-All rng count sides s h.2 in
      let size = draw-length rng count sides s in
      let sums = add_rolls_bounds sides (draw rng count sides s).0 faces in
      let (lo, hi) = rw size at sums in
      let made = simple_result rng expression count sides modifier s in
      (
        made.0,
        made.1,
        rw ((check_limits_iff d count sides).1 h) (unfold unless in refl),
        unfold simple_result in size,
        unfold simple_result in faces,
        unfold simple_result in refl,
        unfold simple_result in omega (int_laws, lo),
        unfold simple_result in omega (int_laws, hi),
      ),
  λ r t e. (check_limits_iff d count sides).0 (unless_rolled _ _ (r, t) e),
)
