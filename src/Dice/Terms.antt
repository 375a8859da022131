-- ===== src/Dice/Terms.antt =====
-- The loop of `_roll_complex` of services/dice.py ends, and the fuel of the model is enough for it.
use mai_bot_trpg_plugin.Prelude.{
  ℕ, zero, suc, ◌≤◌, ◌<◌, String, ◌≡◌, ◌≢◌, refl, ap, Bool, true, false, Option, none, some, arith,
  ◌==◌, string_eq, if_keeps,
}
use mai_bot_trpg_plugin.Prelude.Int.{ℤ}
use mai_bot_trpg_plugin.Prelude.Numbers.{parse_digits, span_digits}
use mai_bot_trpg_plugin.Json.{◌>>=◌}
use mai_bot_trpg_plugin.Dice.Random.{Random}
use mai_bot_trpg_plugin.Dice.Parse.{
  normalise, parse_simple, parse_dice, parse_sign, parse_term, term_of, after_d, Term, dice, number,
}
use mai_bot_trpg_plugin.Dice.Roll.{
  DiceService, DiceError, out_of_fuel, Sums, Rolled, rolled, raised, check_limits, unless,
  roll_simple, roll_term, after_term, on_term, on_sign, roll_terms, finish_complex, roll_complex,
  roll_parsed, roll, with_sign, no_sums, text_length,
}

span_digits-length : (s : String) → text_length (span_digits s).1 ≤ text_length s
unfolding span_digits
span_digits-length String.[] = omega arith
span_digits-length (String.◌∷◌ c s) = ground (arith, span_digits-length s)

after_d-length : (s t : String) → after_d s ≡ some t → text_length t < text_length s
unfolding after_d
after_d-length String.[] t e = absurd (cc e)
after_d-length (String.◌∷◌ c s) t e = ground arith

pub bind_some :
    {A B : Type 0} (o : Option A) (f : A → Option B) (b : B)
    → (o >>= f) ≡ some b
    → (a : A) × (o ≡ some a) × (f a ≡ some b)
bind_some none f b e = absurd (cc e)
bind_some (some a) f b e = (a, refl, e)

parse_sign-length :
    (s t : String) (plus : Bool) → parse_sign s ≡ some (plus, t) → text_length t < text_length s
unfolding parse_sign
parse_sign-length String.[] t plus e = absurd (cc e)
parse_sign-length (String.◌∷◌ c s) t plus e = ground arith

pub parse_dice-length :
    (s t : String) (count sides : ℕ)
    → parse_dice s ≡ some (count, sides, t)
    → text_length t < text_length s
unfolding parse_dice
parse_dice-length s t count sides e =
    let (rest, cut, e1) = bind_some (after_d (span_digits s).1) _ (count, sides, t) e in
    let (n, read, e2) = bind_some (parse_digits (span_digits rest).0) _ (count, sides, t) e1 in
    let last : (span_digits rest).1 ≡ t = cc e2 in
    let end_ = ap (λ (x : String). text_length x) last in
    omega (
      arith,
      span_digits-length s,
      span_digits-length rest,
      after_d-length (span_digits s).1 rest cut,
      end_,
    )

term_of-length :
    (s t : String) (o : Option (ℕ × ℕ × String)) (x : Term)
    → parse_dice s ≡ o
    → term_of s o ≡ some (x, t)
    → text_length t ≤ text_length s
unfolding term_of
term_of-length s t none x from e =
    let (n, read, e1) = bind_some (parse_digits (span_digits s).0) _ (x, t) e in
    let last : (span_digits s).1 ≡ t = cc e1 in
    let end_ = ap (λ (x : String). text_length x) last in omega (arith, span_digits-length s, end_)
term_of-length s t (some (count, sides, rest)) x from e =
    let last : rest ≡ t = cc e in
    let end_ = ap (λ (x : String). text_length x) last in
    omega (arith, parse_dice-length s rest count sides from, end_)

abbrev is_fuel : DiceError → Bool
is_fuel out_of_fuel = true
is_fuel _ = false

abbrev is_out : {A : Type 0} → Rolled A → Bool
is_out (raised e) = is_fuel e
is_out (rolled a) = false

-- No part of the loop raises `out_of_fuel`, if the rest of the loop does not.
abbrev Ends : {A : Type 0} → Rolled A → Type 0
Ends r = is_out r ≡ false

unless-Ends :
    {A : Type 0} (d : DiceService) (count sides : ℕ) (a : A)
    → Ends (unless (check_limits d count sides) a)
unfolding check_limits unless
unless-Ends d count sides a = ground arith

module _ (rng : Random) (d : DiceService) where
  roll_term-Ends :
      (plus : Bool) (x : Term) (sums : Sums) (s : rng.State) → Ends (roll_term rng d plus x sums s)
  unfolding roll_term
  roll_term-Ends plus (number n) sums s = refl
  roll_term-Ends plus (dice count sides) sums s = unless-Ends d count sides _

  after_term-Ends :
      (next : String → Sums → rng.State → Rolled (Sums × rng.State)) (more : String)
      (r : Rolled (Sums × rng.State))
      → Ends r
      → ((sums : Sums) (s : rng.State) → Ends (next more sums s))
      → Ends (after_term rng d next more r)
  unfolding after_term
  after_term-Ends next more (raised e) h k = h
  after_term-Ends next more (rolled (sums, t)) h k = k sums t

  -- A round ends where the rest ends on every shorter text.
  on_term-Ends :
      (next : String → Sums → rng.State → Rolled (Sums × rng.State)) (plus : Bool) (text : String)
      (o : Option (Term × String)) (sums : Sums) (s : rng.State)
      → parse_term text ≡ o
      → ((more : String) (sums : Sums) (s : rng.State)
          → text_length more ≤ text_length text
          → Ends (next more sums s))
      → Ends (on_term rng d next plus o sums s)
  unfolding on_term parse_term
  on_term-Ends next plus text none sums s e k = refl
  on_term-Ends next plus text (some (x, more)) sums s e k =
      after_term-Ends next more (roll_term rng d plus x sums s) (roll_term-Ends plus x sums s)
        (λ sums t. k more sums t (term_of-length text more (parse_dice text) x refl e))

  on_sign-Ends :
      (next : String → Sums → rng.State → Rolled (Sums × rng.State)) (text : String)
      (o : Option (Bool × String)) (sums : Sums) (s : rng.State)
      → parse_sign text ≡ o
      → ((more : String) (sums : Sums) (s : rng.State)
          → text_length more < text_length text
          → Ends (next more sums s))
      → Ends (on_sign rng d next o sums s)
  unfolding on_sign
  on_sign-Ends next text none sums s e k = refl
  on_sign-Ends next text (some (plus, rest)) sums s e k =
      on_term-Ends next plus rest (parse_term rest) sums s refl
        (λ more sums t le. k more sums t (omega (arith, parse_sign-length text rest plus e)))

  roll_terms-Ends :
      (fuel : ℕ) (text : String) (sums : Sums) (s : rng.State)
      → text_length text < fuel
      → Ends (roll_terms rng d fuel text sums s)
  unfolding roll_terms
  roll_terms-Ends zero text sums s h = absurd (omega arith)
  roll_terms-Ends (suc fuel) text sums s h =
      if_keeps Ends (text == "") (λ _. refl)
        (λ _.
          on_sign-Ends (roll_terms rng d fuel) text (parse_sign text) sums s refl
            (λ more sums t lt. roll_terms-Ends fuel more sums t (omega arith)))

  finish_complex-Ends :
      (text : String) (r : Rolled (Sums × rng.State)) → Ends r → Ends (finish_complex rng d text r)
  unfolding finish_complex
  finish_complex-Ends text (raised e) h = h
  finish_complex-Ends text (rolled (sums, t)) h = refl

  roll_parsed-Ends :
      (text : String) (o : Option (ℕ × ℕ × ℤ)) (s : rng.State) → Ends (roll_parsed rng d text o s)
  unfolding roll_parsed roll_simple roll_complex
  roll_parsed-Ends text (some (count, sides, modifier)) s = unless-Ends d count sides _
  roll_parsed-Ends text none s =
      let signed_text = with_sign text in
      finish_complex-Ends signed_text _
        (roll_terms-Ends (suc (text_length signed_text)) signed_text no_sums s (omega arith))

  -- A roll ends, whatever the expression, the limits and the numbers that are drawn: the fuel of the
  -- model never runs out, so that the result is one of the code, or an error of the code.
  pub roll-Ends :
      (expression : String) (s : rng.State) → roll rng d expression s ≢ raised out_of_fuel
  unfolding roll
  roll-Ends expression s e =
      let h = roll_parsed-Ends (normalise expression) (parse_simple (normalise expression)) s in
      let out = ap is_out e in absurd (cc (h, out))
