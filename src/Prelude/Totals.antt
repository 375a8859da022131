-- ===== src/Prelude/Totals.antt =====
-- Tables of integers: what they hold under a key, and in all.
use mathlib.Core.Path.{◌≡◌}
use mathlib.Core.List.{[], ◌∷◌}
use mai_bot_trpg_plugin.Prelude.Tests.{if◌then◌else◌, Bool-cases}
use mathlib.Core.Logic.{inl, inr}
use native.Mathlib.Omega.{arith}
use mai_bot_trpg_plugin.Prelude.Equality.{Eq, ◌==◌}
use mai_bot_trpg_plugin.Prelude.Int.{ℤ, pos, ◌+ℤ◌, int_laws, parts_of_eq}
use mai_bot_trpg_plugin.Prelude.Dict.{Dict, lookup, lookup_or, insert, lookup-insert}

module _ {ℓ} {K : Type ℓ} where
  unfoldable pub sum : Dict K ℤ → ℤ
  sum [] = pos 0
  sum ((a, v) ∷ d) = v +ℤ sum d

module _ {ℓ} {K : Type ℓ} ⦃e : Eq K⦄ where
  pub lookup_or-insert :
      (a b : K) (z v : ℤ) (d : Dict K ℤ)
      → lookup_or b z (insert a v d) ≡ (if a == b then v else lookup_or b z d)
  unfolding lookup_or
  lookup_or-insert a b z v d = ground (arith, lookup-insert a b v d)

  pub lookup_or-cons :
      (a b : K) (z v : ℤ) (d : Dict K ℤ)
      → lookup_or a z ((b, v) ∷ d) ≡ (if b == a then v else lookup_or a z d)
  unfolding lookup_or lookup
  lookup_or-cons a b z v d = ground arith

  -- Writing an entry changes the sum by the difference; a missing entry counts as 0.
  pub sum-insert :
      (a : K) (v : ℤ) (d : Dict K ℤ) → sum (insert a v d) +ℤ lookup_or a (pos 0) d ≡ sum d +ℤ v
  unfolding sum insert
  sum-insert a v [] = unfold lookup_or lookup in omega int_laws
  sum-insert a v ((b, w) ∷ d) = rw lookup_or-cons (elim (Bool-cases (b == a)) [
    | inl same ↦ rw same (omega int_laws)
    | inr other ↦ rw other (omega (int_laws, parts_of_eq (sum-insert a v d)))
  ])
