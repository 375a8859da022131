-- ===== src/Dice/Check.antt =====
-- The checks of services/dice.py, and the quick rolls.
use mai_bot_trpg_plugin.Prelude.{
  ℕ, zero, suc, String, Bool, true, false, List, [], ltb, if◌then◌else◌,
}
use Prim.Native.Nat.{max, min}
use mai_bot_trpg_plugin.Prelude.Int.{ℤ, pos, negsuc, ◌+ℤ◌, ◌-ℤ◌, leb_ℤ, ltb_ℤ, eqb_ℤ, half_ℤ}
use mai_bot_trpg_plugin.Prelude.Chars.{◌+++◌}
use mai_bot_trpg_plugin.Prelude.Numbers.{show_int, show_signed}
use mai_bot_trpg_plugin.Dice.Random.{Random, draw}
use mai_bot_trpg_plugin.Dice.Roll.{
  DiceService, DiceResult, empty_range, Rolled, rolled, raised, roll,
}

-- `(attribute_value - 10) // 2 + modifier`
abbrev pub total_modifier : ℤ → ℤ → ℤ
total_modifier attribute_value modifier = half_ℤ (attribute_value -ℤ pos 10) +ℤ modifier

-- `f"d20{m:+d}" if m else "d20"`
unfoldable pub check_expression : ℤ → String
unfolding show_signed
check_expression m = if eqb_ℤ m (pos 0) then "d20" else "d20" +++ show_signed m

-- The branches on the result of the roll.
unfoldable pub judge : ℤ → DiceResult → Bool × String
unfolding show_int ◌-ℤ◌
judge difficulty r =
    if r.is_critical
    then (true, "大成功！无论如何都成功了！")
    else if r.is_fumble
    then (false, "大失败！无论如何都失败了！")
    else if leb_ℤ difficulty r.total
    then (true, "成功！(超过DC " +++ show_int (r.total -ℤ difficulty) +++ "点)")
    else (false, "失败！(差 " +++ show_int (difficulty -ℤ r.total) +++ "点)")

-- Who wins, and the text.
unfoldable pub compare_totals : ℤ → ℤ → ℤ × String
unfolding show_int
compare_totals a b =
    let shown = "(" +++ show_int a +++ " vs " +++ show_int b +++ ")" in
    if ltb_ℤ b a
    then (pos 1, "发起方胜出！" +++ shown)
    else if ltb_ℤ a b
    then (negsuc 0, "对抗方胜出！" +++ shown)
    else (pos 0, "平局！" +++ shown)

module _ (rng : Random) (d : DiceService) where
  -- `roll_check` from the result of the roll on.
  unfoldable pub finish_check :
      ℤ → Rolled (DiceResult × rng.State) → Rolled (DiceResult × Bool × String × rng.State)
  unfolding judge
  finish_check difficulty (raised e) = raised e
  finish_check difficulty (rolled (r, t)) =
      let (success, text) = judge difficulty r in
      rolled (record r { description = text }, success, text, t)

  unfoldable pub roll_check :
      ℤ → ℤ → ℤ → rng.State → Rolled (DiceResult × Bool × String × rng.State)
  unfolding half_ℤ ◌+ℤ◌ ◌-ℤ◌ check_expression roll finish_check
  roll_check attribute_value difficulty modifier s =
      finish_check difficulty
        (roll rng d (check_expression (total_modifier attribute_value modifier)) s)

  -- `roll_opposed` from the second result on, and from the first.
  unfoldable pub finish_opposed :
      DiceResult
      → Rolled (DiceResult × rng.State)
      → Rolled (DiceResult × DiceResult × ℤ × String × rng.State)
  unfolding compare_totals
  finish_opposed r (raised e) = raised e
  finish_opposed r (rolled (q, u)) =
      let (winner, text) = compare_totals r.total q.total in rolled (r, q, winner, text, u)

  unfoldable pub opposed_by :
      ℤ
      → Rolled (DiceResult × rng.State)
      → Rolled (DiceResult × DiceResult × ℤ × String × rng.State)
  unfolding check_expression roll finish_opposed
  opposed_by m (raised e) = raised e
  opposed_by m (rolled (r, t)) = finish_opposed r (roll rng d (check_expression m) t)

  unfoldable pub roll_opposed :
      ℤ → ℤ → ℤ → ℤ → rng.State → Rolled (DiceResult × DiceResult × ℤ × String × rng.State)
  unfolding half_ℤ ◌+ℤ◌ ◌-ℤ◌ check_expression roll opposed_by
  roll_opposed attr1 attr2 mod1 mod2 s =
      opposed_by (total_modifier attr2 mod2)
        (roll rng d (check_expression (total_modifier attr1 mod1)) s)

module _ (rng : Random) where
  unfoldable pub quick_roll : ℕ → ℕ → rng.State → Rolled (List ℕ × rng.State)
  unfolding draw
  quick_roll sides zero s = rolled ([], s)
  quick_roll sides (suc n) s =
      if ltb sides 1 then raised empty_range else rolled (draw rng (suc n) sides s)

  -- The two rolls of an advantage or a disadvantage, of which `pick` takes one.
  unfoldable pub roll_twice : (ℕ → ℕ → ℕ) → ℕ → rng.State → Rolled (ℕ × ℕ × ℕ × rng.State)
  roll_twice pick sides s =
      if ltb sides 1
      then raised empty_range
      else let (a, t) = rng.randint 1 sides s in
        let (b, u) = rng.randint 1 sides t in rolled (pick a b, a, b, u)

  unfoldable pub roll_with_advantage : ℕ → rng.State → Rolled (ℕ × ℕ × ℕ × rng.State)
  unfolding roll_twice
  roll_with_advantage sides s = roll_twice max sides s

  unfoldable pub roll_with_disadvantage : ℕ → rng.State → Rolled (ℕ × ℕ × ℕ × rng.State)
  unfolding roll_twice
  roll_with_disadvantage sides s = roll_twice min sides s
