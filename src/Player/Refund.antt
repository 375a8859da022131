-- ===== src/Player/Refund.antt =====
-- The loop of `reset_points` in models/player.py.
use mai_bot_trpg_plugin.Prelude.{
  ◌≡◌, refl, inl, inr, ◌⊎◌, false, none, some, [], ◌∷◌, arith, ◌==◌, Bool-cases, string_eq, ◌∙◌,
}
use mai_bot_trpg_plugin.Prelude.Int.{ℤ, pos, ◌+ℤ◌, ◌-ℤ◌, int_laws}
use mai_bot_trpg_plugin.Prelude.Dict.{Dict, lookup, lookup_or, HasDistinctKeys}
use mai_bot_trpg_plugin.Prelude.Totals.{sum, lookup_or-cons}
use mai_bot_trpg_plugin.Player.Attributes.{
  Attribute, attribute_eq, attribute_beq_iff, PlayerAttributes, read, write, read-write,
}
use mai_bot_trpg_plugin.Player.Defs.{take_back, calls_fail, refund}

pub lookup_or_missing :
    (a : Attribute) (d : Dict Attribute ℤ) → lookup a d ≡ none → lookup_or a (pos 0) d ≡ pos 0
unfolding lookup_or
lookup_or_missing a d h = ground arith

-- `take_back` takes from each attribute what was allocated to it, and pays the sum back.
pub read-take_back :
    (b : Attribute) (d : Dict Attribute ℤ) (s : PlayerAttributes) (t : ℤ)
    → HasDistinctKeys d
    → read b (take_back d s t).0 ≡ read b s -ℤ lookup_or b (pos 0) d
unfolding take_back
read-take_back b [] s t h = unfold lookup_or lookup in omega int_laws
read-take_back b ((a, v) ∷ d) s t h =
    rw (read-take_back b d (write a (read a s -ℤ v) s) (t +ℤ v) h.1, read-write, lookup_or-cons)
      (elim (Bool-cases (a == b)) [
        | inl same ↦
            rw (same, ← (attribute_beq_iff a b).0 same, lookup_or_missing a d h.0) (omega int_laws)
        | inr other ↦ rw other
      ])

pub take_back_total :
    (d : Dict Attribute ℤ) (s : PlayerAttributes) (t : ℤ) → (take_back d s t).1 ≡ t +ℤ sum d
unfolding take_back sum
take_back_total [] s t = omega int_laws
take_back_total ((a, v) ∷ d) s t =
    take_back_total d (write a (read a s -ℤ v) s) (t +ℤ v) ∙ omega int_laws

pub refund-some :
    (d : Dict Attribute ℤ) (s : PlayerAttributes)
    → calls_fail s ≡ false
    → refund d s ≡ some (take_back d s (pos 0))
unfolding refund
refund-some [] s h = unfold take_back in refl
refund-some ((a, v) ∷ d) s h = rw h

pub refund-cases :
    (d : Dict Attribute ℤ) (s : PlayerAttributes)
    → (refund d s ≡ none) ⊎ (refund d s ≡ some (take_back d s (pos 0)))
refund-cases [] s = inr (unfold refund take_back in refl)
refund-cases ((a, v) ∷ d) s = elim (Bool-cases (calls_fail s)) [
  | inl bad ↦ inl (unfold refund in rw bad)
  | inr fine ↦ inr (refund-some ((a, v) ∷ d) s fine)
]
