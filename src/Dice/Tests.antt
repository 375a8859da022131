-- ===== src/Dice/Tests.antt =====
-- Runs of services/dice.py.
use mai_bot_trpg_plugin.Prelude.{
  ℕ, suc, ◌≤◌, String, ◌≡◌, refl, ◌↔◌, Bool, not, ◌&&◌, ◌||◌, [], ◌∷◌, arith, length, All, leb,
  nat_beq, if◌then◌else◌,
}
use mai_bot_trpg_plugin.Prelude.Int.{ℤ, pos, negsuc, ◌+ℤ◌, ◌-ℤ◌, ◌≤ℤ◌, ◌<ℤ◌, leb_ℤ, neg_ℤ}
use mai_bot_trpg_plugin.Dice.Random.{Random}
use mai_bot_trpg_plugin.Dice.Parse.{parse_simple}
use mai_bot_trpg_plugin.Dice.Roll.{
  DiceResult, rolled, default_service, add_rolls, roll_simple, roll_complex, roll,
}
use mai_bot_trpg_plugin.Dice.Check.{total_modifier, roll_check, roll_opposed}
use mai_bot_trpg_plugin.Dice.Bounds.{IsFace, IsAllowed, roll_simple_lem}
use mai_bot_trpg_plugin.Dice.Agree.{outcome, roll_complex-roll_simple}
use mai_bot_trpg_plugin.Dice.Checks.{roll_check_lem, roll_opposed_lem}

-- A source of numbers that counts up, and gives the lowest number where the count is out of the range.
abbrev count_up : ℕ → ℕ → ℕ → ℕ × ℕ
count_up lo hi s = (if leb lo s && leb s hi then s else lo, suc s)

count_up_range : (lo hi s : ℕ) → lo ≤ hi → (lo ≤ (count_up lo hi s).0) × ((count_up lo hi s).0 ≤ hi)
count_up_range lo hi s h = (ground arith, ground arith)

abbrev counting : Random
counting = record { State = ℕ; randint = count_up; randint_range = count_up_range }

roll_example :
    outcome counting default_service (roll counting default_service " 2D6+1d4 - 3" 3)
    ≡ rolled (pos 5, 3 ∷ 4 ∷ 1 ∷ [], negsuc 2, 6)
unfolding roll outcome ◌-ℤ◌ ◌+ℤ◌
roll_example = refl

roll_simple_lem_example :
    (IsAllowed default_service 3 6
      → (r : DiceResult) × (t : ℕ) × (roll_simple counting default_service "3d6+5" (3, 6, pos 5) 2
          ≡ rolled (r, t))
        × (length r.rolls ≡ 3)
        × All (IsFace 6) r.rolls
        × (r.total ≡ pos (add_rolls r.rolls) +ℤ pos 5)
        × (pos 8 ≤ℤ r.total)
        × (r.total ≤ℤ pos 23))
    × ((r : DiceResult) (t : ℕ)
        → roll_simple counting default_service "3d6+5" (3, 6, pos 5) 2 ≡ rolled (r, t)
        → IsAllowed default_service 3 6)
unfolding roll_simple ◌+ℤ◌
roll_simple_lem_example = roll_simple_lem counting default_service "3d6+5" 3 6 (pos 5) 2

roll_complex-roll_simple_example :
    outcome counting default_service (roll_complex counting default_service "3d6-2" 4)
    ≡ outcome counting default_service
        (roll_simple counting default_service "3d6-2" (3, 6, negsuc 1) 4)
unfolding parse_simple neg_ℤ ◌-ℤ◌
roll_complex-roll_simple_example =
    roll_complex-roll_simple counting default_service "3d6-2" 3 6 (negsuc 1) 4 refl

roll_check_lem_example :
    (face : ℕ) × (r : DiceResult) × (success : Bool) × (text : String) × (t : ℕ) × (roll_check
        counting default_service
        (pos 14)
        (pos 12)
        (negsuc 0)
        9
      ≡ rolled (r, success, text, t))
    × IsFace 20 face
    × (r.rolls ≡ face ∷ [])
    × (r.total ≡ pos face +ℤ total_modifier (pos 14) (negsuc 0))
    × (success ≡ (nat_beq face 20 || not (nat_beq face 1) && leb_ℤ (pos 12) r.total))
roll_check_lem_example =
    roll_check_lem counting default_service (pos 14) (pos 12) (negsuc 0) 9 (omega arith)
      (omega arith)

roll_opposed_lem_example :
    (r q : DiceResult) × (winner : ℤ) × (text : String) × (t : ℕ) × (a : ℕ) × (b : ℕ)
    × (roll_opposed counting default_service (pos 14) (pos 9) (pos 0) (pos 2) 7
        ≡ rolled (r, q, winner, text, t))
    × IsFace 20 a
    × IsFace 20 b
    × (r.total ≡ pos a +ℤ total_modifier (pos 14) (pos 0))
    × (q.total ≡ pos b +ℤ total_modifier (pos 9) (pos 2))
    × ((winner ≡ pos 1) ↔ (q.total <ℤ r.total))
    × ((winner ≡ negsuc 0) ↔ (r.total <ℤ q.total))
roll_opposed_lem_example =
    roll_opposed_lem counting default_service (pos 14) (pos 9) (pos 0) (pos 2) 7 (omega arith)
      (omega arith)
