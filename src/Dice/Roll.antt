-- ===== src/Dice/Roll.antt =====
-- `roll` of services/dice.py.
use mai_bot_trpg_plugin.Prelude.{
  ℕ, zero, suc, ◌+◌, String, Bool, false, ◌&&◌, ◌||◌, Option, none, some, List, [], ◌∷◌, ◌++◌, ltb,
  nat_beq, ◌==◌, string_eq, if◌then◌else◌, length,
}
use mai_bot_trpg_plugin.Prelude.Int.{ℤ, pos, ◌+ℤ◌, ◌-ℤ◌}
use mai_bot_trpg_plugin.Dice.Random.{Random, draw}
use mai_bot_trpg_plugin.Dice.Parse.{
  normalise, parse_simple, parse_sign, parse_term, Term, dice, number, is_plus, is_minus,
}

pub record DiceResult : Type 0 where
  pub expression : String
  pub total : ℤ
  pub rolls : List ℕ
  pub modifier : ℤ
  pub dice_count : ℕ
  pub dice_sides : ℕ
  pub is_critical : Bool
  pub is_fumble : Bool
  pub description : String

-- The `ValueError`s, that of `randint` on an empty range included. `out_of_fuel` is none of the code.
pub data DiceError : Type 0 where
  count_too_small sides_too_small : DiceError
  count_above sides_above : (max : ℕ) → DiceError
  bad_expression empty_range : DiceError
  out_of_fuel : DiceError

pub data Rolled (A : Type 0) : Type 0 where
  rolled : A → Rolled A
  raised : DiceError → Rolled A

-- `DiceService(max_dice_count, max_dice_sides)`
pub record DiceService : Type 0 where
  pub max_dice_count : ℕ
  pub max_dice_sides : ℕ

abbrev pub default_service : DiceService
default_service = record { max_dice_count = 100; max_dice_sides = 1000 }

abbrev pub add_rolls : List ℕ → ℕ
add_rolls [] = 0
add_rolls (r ∷ rs) = r + add_rolls rs

-- The four checks on a count and its sides, in their order.
unfoldable pub check_limits : DiceService → ℕ → ℕ → Option DiceError
check_limits d count sides =
    if ltb count 1
    then some count_too_small
    else if ltb sides 1
    then some sides_too_small
    else if ltb d.max_dice_count count
    then some (count_above d.max_dice_count)
    else if ltb d.max_dice_sides sides
    then some (sides_above d.max_dice_sides)
    else none

abbrev is_single : ℕ → List ℕ → Bool
is_single face [] = false
is_single face (r ∷ rs) = nat_beq r face

-- The sums so far of a complex expression. The sign that a roll carries in the code is dropped at the
-- end, and is not kept here.
pub record Sums : Type 0 where
  pub total : ℤ
  pub modifier : ℤ
  pub all_rolls : List ℕ

unfoldable pub signed : Bool → ℤ → ℕ → ℤ
signed plus total n = if plus then total +ℤ pos n else total -ℤ pos n

-- The result of a simple roll whose count and sides are allowed.
unfoldable pub simple_result :
    (rng : Random) → String → ℕ → ℕ → ℤ → rng.State → DiceResult × rng.State
unfolding draw
simple_result rng expression count sides modifier s =
    let (rolls, t) = draw rng count sides s in
    (
      record {
        expression = expression;
        total = pos (add_rolls rolls) +ℤ modifier;
        rolls = rolls;
        modifier = modifier;
        dice_count = count;
        dice_sides = sides;
        is_critical = nat_beq count 1 && nat_beq sides 20 && is_single 20 rolls;
        is_fumble = nat_beq count 1 && nat_beq sides 20 && is_single 1 rolls;
        description = "";
      },
      t,
    )

-- What is done where the limits raise nothing.
unfoldable pub unless : {A : Type 0} → Option DiceError → A → Rolled A
unless none a = rolled a
unless (some e) a = raised e

module _ (rng : Random) (d : DiceService) where
  unfoldable pub roll_simple : String → ℕ × ℕ × ℤ → rng.State → Rolled (DiceResult × rng.State)
  unfolding check_limits unless simple_result
  roll_simple expression (count, sides, modifier) s =
      unless (check_limits d count sides) (simple_result rng expression count sides modifier s)

  -- One term, with its sign.
  unfoldable pub roll_term : Bool → Term → Sums → rng.State → Rolled (Sums × rng.State)
  unfolding check_limits unless draw signed
  roll_term plus (number n) sums s = rolled (
    record {
      total = signed plus sums.total n;
      modifier = signed plus sums.modifier n;
      all_rolls = sums.all_rolls;
    },
    s,
  )
  roll_term plus (dice count sides) sums s =
      let (rolls, t) = draw rng count sides s in
      unless (check_limits d count sides) (
        record {
          total = signed plus sums.total (add_rolls rolls);
          modifier = sums.modifier;
          all_rolls = sums.all_rolls ++ rolls;
        },
        t,
      )

  -- A round of the loop, behind the term and behind the sign; `next` is the rest of the loop.
  unfoldable pub after_term :
      (String → Sums → rng.State → Rolled (Sums × rng.State))
      → String
      → Rolled (Sums × rng.State)
      → Rolled (Sums × rng.State)
  after_term next more (raised e) = raised e
  after_term next more (rolled (sums, t)) = next more sums t

  unfoldable pub on_term :
      (String → Sums → rng.State → Rolled (Sums × rng.State))
      → Bool
      → Option (Term × String)
      → Sums
      → rng.State
      → Rolled (Sums × rng.State)
  unfolding roll_term after_term
  on_term next plus none sums s = raised bad_expression
  on_term next plus (some (term, more)) sums s = after_term next more (roll_term plus term sums s)

  unfoldable pub on_sign :
      (String → Sums → rng.State → Rolled (Sums × rng.State))
      → Option (Bool × String)
      → Sums
      → rng.State
      → Rolled (Sums × rng.State)
  unfolding parse_term on_term
  on_sign next none sums s = raised bad_expression
  on_sign next (some (plus, rest)) sums s = on_term next plus (parse_term rest) sums s

  -- The loop over the tokens: each has to begin where the one before it ended, and the last has to
  -- end the text.
  unfoldable pub roll_terms : ℕ → String → Sums → rng.State → Rolled (Sums × rng.State)
  unfolding parse_sign on_sign
  roll_terms zero text sums s = raised out_of_fuel
  roll_terms (suc fuel) text sums s =
      if text == "" then rolled (sums, s) else on_sign (roll_terms fuel) (parse_sign text) sums s

-- A sign stands in front of an expression that has none.
unfoldable pub with_sign : String → String
with_sign String.[] = String.[]
with_sign (String.◌∷◌ c s) =
    if is_plus c || is_minus c then String.◌∷◌ c s else String.◌∷◌ "+" (String.◌∷◌ c s)

abbrev pub text_length : String → ℕ
text_length String.[] = 0
text_length (String.◌∷◌ c s) = suc (text_length s)

-- `expression.lstrip('+')`
unfoldable pub strip_plus : String → String
strip_plus String.[] = String.[]
strip_plus (String.◌∷◌ c s) = let rest = strip_plus s in if is_plus c then rest else String.◌∷◌ c s

abbrev pub no_sums : Sums
no_sums = record { total = pos 0; modifier = pos 0; all_rolls = [] }

module _ (rng : Random) (d : DiceService) where
  -- The result of a complex expression from its sums on.
  unfoldable pub finish_complex :
      String → Rolled (Sums × rng.State) → Rolled (DiceResult × rng.State)
  unfolding strip_plus
  finish_complex text (raised e) = raised e
  finish_complex text (rolled (sums, t)) = rolled (
    record {
      expression = strip_plus text;
      total = sums.total;
      rolls = sums.all_rolls;
      modifier = sums.modifier;
      dice_count = length sums.all_rolls;
      dice_sides = 0;
      is_critical = false;
      is_fumble = false;
      description = "";
    },
    t,
  )

  -- Each token takes a character at least, so that the length of the text is fuel enough.
  unfoldable pub roll_complex : String → rng.State → Rolled (DiceResult × rng.State)
  unfolding with_sign roll_terms finish_complex
  roll_complex expression s =
      let text = with_sign expression in
      finish_complex text (roll_terms rng d (suc (text_length text)) text no_sums s)

  -- The two ways to read an expression, from what the first pattern gives.
  unfoldable pub roll_parsed :
      String → Option (ℕ × ℕ × ℤ) → rng.State → Rolled (DiceResult × rng.State)
  unfolding roll_simple roll_complex
  roll_parsed expression (some parts) s = roll_simple rng d expression parts s
  roll_parsed expression none s = roll_complex expression s

  unfoldable pub roll : String → rng.State → Rolled (DiceResult × rng.State)
  unfolding normalise parse_simple roll_parsed
  roll expression s = let e = normalise expression in roll_parsed e (parse_simple e) s
