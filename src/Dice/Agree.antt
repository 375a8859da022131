-- ===== src/Dice/Agree.antt =====
-- The two ways in which services/dice.py reads an expression agree where both read it.
use Prim.Native.Char.{Char, code}
use text.Mathlib.TextLemmas.{cons-ne-nil}
use mai_bot_trpg_plugin.Prelude.{
  ℕ, suc, ◌+◌, ◌-◌, ◌*◌, ◌<◌, String, ◌≡◌, refl, ◌∙◌, ap, Bool, true, false, ◌||◌, none, some, List,
  arith, Bool-cases, Option-cases, inl, inr, nat_beq, string_eq, beq_ne,
}
use mai_bot_trpg_plugin.Prelude.Int.{ℤ, pos, ◌+ℤ◌, ◌-ℤ◌, neg_ℤ, int_laws}
use mai_bot_trpg_plugin.Prelude.Numbers.{is_digit, digits_from, parse_digits, span_digits}
use mai_bot_trpg_plugin.Dice.Random.{Random, draw}
use mai_bot_trpg_plugin.Dice.Parse.{
  parse_simple, parse_dice, parse_modifier, parse_sign, parse_term, term_of, after_d, is_plus,
  is_minus, dice, number,
}
use mai_bot_trpg_plugin.Dice.Roll.{
  DiceService, DiceResult, Sums, Rolled, rolled, raised, add_rolls, check_limits, unless, signed,
  simple_result, roll_simple, roll_term, after_term, on_term, on_sign, roll_terms, finish_complex,
  roll_complex, with_sign, no_sums, text_length,
}
use mai_bot_trpg_plugin.Dice.Terms.{bind_some, parse_dice-length}

zero_plus : (m : ℤ) → pos 0 +ℤ m ≡ m
zero_plus m = omega int_laws

-- A text of digits only is cut off as a whole.
digits_from-span : (m n : ℕ) (s : String) → digits_from m s ≡ some n → span_digits s ≡ (s, "")
unfolding digits_from span_digits
digits_from-span m n String.[] h = refl
digits_from-span m n (String.◌∷◌ c s) h = elim (Bool-cases (is_digit c)) [
  | inl digit ↦ rw (digit, digits_from-span (m * 10 + (code c - b'0')) n s (rw digit at h))
  | inr other ↦ absurd (ground arith)
]

parse_digits-span : (n : ℕ) (s : String) → parse_digits s ≡ some n → span_digits s ≡ (s, "")
unfolding parse_digits
parse_digits-span n String.[] h = absurd (cc h)
parse_digits-span n (String.◌∷◌ c s) h = digits_from-span 0 n (String.◌∷◌ c s) h

-- A number is a term of its own.
parse_term-number :
    (n : ℕ) (s : String) → parse_digits s ≡ some n → parse_term s ≡ some (number n, "")
unfolding parse_term
parse_term-number n s h =
    let cut = parse_digits-span n s h in
    let no_dice : parse_dice s ≡ none = unfold parse_dice in rw cut (unfold after_d in refl) in
    rw no_dice (unfold term_of in rw (cut, h))

module _ (rng : Random) (d : DiceService) where
  -- The sums when a modifier has been added.
  abbrev plus_modifier : Sums → ℤ → Sums
  plus_modifier sums m = record {
    total = sums.total +ℤ m;
    modifier = sums.modifier +ℤ m;
    all_rolls = sums.all_rolls;
  }

  plus_zero : (sums : Sums) → sums ≡ plus_modifier sums (pos 0)
  plus_zero sums =
      let e : sums.total ≡ sums.total +ℤ pos 0 = omega int_laws in
      let f : sums.modifier ≡ sums.modifier +ℤ pos 0 = omega int_laws in
      λ i. record { total = e i; modifier = f i; all_rolls = sums.all_rolls }

  minus_lem :
      (sums : Sums) (n : ℕ)
      → record {
        total = sums.total -ℤ pos n;
        modifier = sums.modifier -ℤ pos n;
        all_rolls = sums.all_rolls;
      }
        ≡ plus_modifier sums (neg_ℤ (pos n))
  minus_lem sums n =
      let e : sums.total -ℤ pos n ≡ sums.total +ℤ neg_ℤ (pos n) = omega int_laws in
      let f : sums.modifier -ℤ pos n ≡ sums.modifier +ℤ neg_ℤ (pos n) = omega int_laws in
      λ i. record { total = e i; modifier = f i; all_rolls = sums.all_rolls }

  roll_terms-end :
      (fuel : ℕ) (sums : Sums) (s : rng.State)
      → roll_terms rng d (suc fuel) "" sums s ≡ rolled (sums, s)
  unfolding roll_terms
  roll_terms-end fuel sums s = refl

  -- The loop reads a modifier as its last term.
  roll_terms-signed :
      (fuel n : ℕ) (c : Char) (text : String) (plus : Bool) (sums : Sums) (s : rng.State)
      → parse_sign (String.◌∷◌ c text) ≡ some (plus, text)
      → parse_digits text ≡ some n
      → roll_terms rng d (suc (suc fuel)) (String.◌∷◌ c text) sums s
        ≡ rolled (
          record {
            total = signed plus sums.total n;
            modifier = signed plus sums.modifier n;
            all_rolls = sums.all_rolls;
          },
          s,
        )
  unfolding roll_terms
  roll_terms-signed fuel n c text plus sums s h k =
      let filled = beq_ne (String.◌∷◌ c text) "" (cons-ne-nil c text) in
      let term = parse_term-number n text k in
      rw (filled, h)
        (unfold on_sign in rw term (unfold on_term roll_term after_term in roll_terms-end fuel _ s))

  roll_terms-modifier :
      (fuel : ℕ) (text : String) (m : ℤ) (sums : Sums) (s : rng.State)
      → parse_modifier text ≡ some m
      → roll_terms rng d (suc (suc fuel)) text sums s ≡ rolled (plus_modifier sums m, s)
  unfolding parse_modifier
  roll_terms-modifier fuel String.[] m sums s h =
      let e : pos 0 ≡ m = cc h in
      roll_terms-end (suc fuel) sums s
      ∙ ap (λ (x : Sums). rolled (x, s)) (plus_zero sums ∙ ap (plus_modifier sums) e)
  roll_terms-modifier fuel (String.◌∷◌ c text) m sums s h = elim (Bool-cases (is_plus c)) [
    | inl plus ↦
        let (n, read, e) = bind_some (parse_digits text) (λ n. some (pos n)) m (rw plus at h) in
        let f : pos n ≡ m = cc e in
        roll_terms-signed fuel n c text true sums s (unfold parse_sign in rw plus) read
        ∙ unfold signed in ap (λ (k : ℤ). rolled (plus_modifier sums k, s)) f
    | inr other ↦ elim (Bool-cases (is_minus c)) [
      | inl minus ↦
          let (n, read, e) =
            bind_some (parse_digits text) (λ n. some (neg_ℤ (pos n))) m (rw (other, minus) at h) in
          let f : neg_ℤ (pos n) ≡ m = cc e in
          roll_terms-signed fuel n c text false sums s (unfold parse_sign in rw (other, minus)) read
          ∙ unfold signed in
            ap (λ (x : Sums). rolled (x, s)) (minus_lem sums n)
            ∙ ap (λ (k : ℤ). rolled (plus_modifier sums k, s)) f
      | inr none_ ↦ absurd (cc (rw (other, none_) at h))
    ]
  ]

  -- What a roll comes to, the texts and the marks of a single die of twenty left out.
  unfoldable pub outcome : Rolled (DiceResult × rng.State) → Rolled (ℤ × List ℕ × ℤ × rng.State)
  outcome (raised e) = raised e
  outcome (rolled (r, t)) = rolled (r.total, r.rolls, r.modifier, t)

  with_sign-dice :
      (text rest : String) (count sides : ℕ)
      → parse_dice text ≡ some (count, sides, rest)
      → with_sign text ≡ String.◌∷◌ "+" text
  unfolding parse_dice span_digits is_digit after_d with_sign
  with_sign-dice String.[] rest count sides h = absurd (cc h)
  with_sign-dice (String.◌∷◌ c text) rest count sides h =
      elim (Bool-cases (is_plus c || is_minus c)) [
        | inl sign ↦
            let no_digit : is_digit c ≡ false = unfold is_digit in ground arith in
            let no_d : nat_beq (code c) b'd' ≡ false = ground arith in
            let nothing : parse_dice (String.◌∷◌ c text) ≡ none =
              unfold parse_dice in unfold span_digits in rw no_digit (unfold after_d in rw no_d) in
            absurd (cc (nothing, h))
        | inr plain ↦ rw plain
      ]

  some_length :
      (text : String) (n : ℕ) → n < text_length text → (k : ℕ) × (text_length text ≡ suc k)
  some_length String.[] n h = absurd (omega arith)
  some_length (String.◌∷◌ c text) n h = (text_length text, refl)

  -- The loop on an expression that begins with dice: the dice, then the rest.
  roll_terms-dice :
      (expression rest : String) (fuel count sides : ℕ) (s : rng.State)
      → parse_dice expression ≡ some (count, sides, rest)
      → roll_terms rng d (suc fuel) (String.◌∷◌ "+" expression) no_sums s
        ≡ after_term rng d
            (roll_terms rng d fuel)
            rest
            (roll_term rng d true (dice count sides) no_sums s)
  unfolding roll_terms
  roll_terms-dice expression rest fuel count sides s h =
      let filled = beq_ne (String.◌∷◌ "+" expression) "" (cons-ne-nil "+" expression) in
      let term : parse_term expression ≡ some (dice count sides, rest) =
        unfold parse_term in rw h (unfold term_of in refl) in
      rw filled (unfold parse_sign on_sign in rw term (unfold on_term in refl))

  complex_parts :
      (expression rest : String) (count sides : ℕ) (modifier : ℤ) (s : rng.State)
      → parse_dice expression ≡ some (count, sides, rest)
      → parse_modifier rest ≡ some modifier
      → outcome (roll_complex rng d expression s)
        ≡ outcome (roll_simple rng d expression (count, sides, modifier) s)
  unfolding roll_complex roll_simple
  complex_parts expression rest count sides modifier s h k =
      let (fuel, size) =
        some_length expression (text_length rest)
          (parse_dice-length expression rest count sides h) in
      rw (with_sign-dice expression rest count sides h, size)
        (rw (roll_terms-dice expression rest (suc (suc fuel)) count sides s h) (
          unfold roll_term in
          elim (Option-cases (check_limits d count sides)) [
            | inl allowed ↦ rw allowed (
                unfold unless after_term signed in
                rw (roll_terms-modifier fuel rest modifier _ _ k) (
                  unfold finish_complex outcome simple_result in
                  λ i. rolled (
                    zero_plus (pos (add_rolls (draw rng count sides s).0)) i +ℤ modifier,
                    (draw rng count sides s).0,
                    zero_plus modifier i,
                    (draw rng count sides s).1,
                  )))
            | inr (e, bad) ↦ rw bad (unfold unless after_term finish_complex outcome in refl)
          ]))

  -- Where a simple expression is read, the way of the complex expressions comes to the same: the total,
  -- the rolls, the modifier and the numbers that are drawn, or the error.
  pub roll_complex-roll_simple :
      (expression : String) (count sides : ℕ) (modifier : ℤ) (s : rng.State)
      → parse_simple expression ≡ some (count, sides, modifier)
      → outcome (roll_complex rng d expression s)
        ≡ outcome (roll_simple rng d expression (count, sides, modifier) s)
  unfolding parse_simple
  roll_complex-roll_simple expression count sides modifier s h =
      let ((count', sides', rest), cut, e1) =
        bind_some (parse_dice expression) _ (count, sides, modifier) h in
      let (modifier', read, e2) = bind_some (parse_modifier rest) _ (count, sides, modifier) e1 in
      let same : (count', sides', modifier') ≡ (count, sides, modifier) = cc e2 in
      complex_parts expression rest count' sides' modifier' s cut read
      ∙ ap (λ (parts : ℕ × ℕ × ℤ). outcome (roll_simple rng d expression parts s)) same
