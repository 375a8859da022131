-- ===== src/Prelude/Equality.antt =====
-- Boolean equality as an interface, and Python's `in`, `append if absent` and `remove` on lists.
use Prim.Native.Nat.{ℕ}
use Prim.Native.String.{String}
use mathlib.Core.Path.{◌≡◌, refl}
use mathlib.Core.Logic.{◌≢◌, ◌↔◌, inl, inr}
use mathlib.Core.Bool.{Bool, true, false, ◌||◌}
use mathlib.Core.List.{List, [], ◌∷◌, ◌++◌}
use native.Mathlib.Omega.{arith}
use text.Mathlib.Text.{◌==◌ as str_eq}
use text.Mathlib.TextEquality.{eq_iff}
use mai_bot_trpg_plugin.Prelude.Tests.{nat_beq, nat_beq_iff, if◌then◌else◌, Bool-cases}

-- A test, with what it decides.
pub record Eq {ℓ} (A : Type ℓ) : Type ℓ where
  pub beq : (x y : A) → Bool
  pub beq_iff : (x y : A) → (beq x y ≡ true) ↔ (x ≡ y)

instance abbrev pub string_eq : Eq String
string_eq = record { beq_iff = eq_iff; beq = str_eq }

abbrev pub ◌==◌ {ℓ} : {A : Type ℓ} ⦃e : Eq A⦄ → (x y : A) → Bool
◌==◌ ⦃e⦄ = e.beq

infix 50 ◌==◌
instance abbrev pub nat_eq : Eq ℕ
nat_eq = record { beq_iff = nat_beq_iff; beq = nat_beq }

module _ {ℓ} {A : Type ℓ} ⦃e : Eq A⦄ where
  pub beq_refl : (a : A) → (a == a) ≡ true
  beq_refl a = (e.beq_iff a a).1 refl

  pub beq_ne : (a b : A) → a ≢ b → (a == b) ≡ false
  beq_ne a b h = elim (Bool-cases (a == b)) [
    | inl same ↦ absurd (h ((e.beq_iff a b).0 same))
    | inr other ↦ other
  ]

  pub beq_sym : (a b : A) → (a == b) ≡ (b == a)
  beq_sym a b = ground (arith, e.beq_iff a b, e.beq_iff b a)

  -- `a in xs`
  unfoldable pub contains : A → List A → Bool
  contains a [] = false
  contains a (x ∷ xs) = x == a || contains a xs

  -- `xs.remove(a)`: the first equal element goes.
  unfoldable pub remove : A → List A → List A
  remove a [] = []
  remove a (x ∷ xs) = if x == a then xs else x ∷ remove a xs

  -- No element occurs twice.
  abbrev pub IsDistinct : List A → Type 0
  IsDistinct [] = Unit
  IsDistinct (x ∷ xs) = (contains x xs ≡ false) × IsDistinct xs

module _ {ℓ} {A : Type ℓ} ⦃e : Eq A⦄ where
  pub contains-append :
      (a : A) (xs ys : List A) → contains a (xs ++ ys) ≡ (contains a xs || contains a ys)
  unfolding contains
  contains-append a [] ys = refl
  contains-append a (x ∷ xs) ys = ground (arith, contains-append a xs ys)

  pub contains-remove_ne :
      (a b : A) (xs : List A) → a ≢ b → contains a (remove b xs) ≡ contains a xs
  unfolding contains remove
  contains-remove_ne a b [] h = refl
  contains-remove_ne a b (x ∷ xs) h =
      ground (arith, contains-remove_ne a b xs h, e.beq_iff x a, e.beq_iff x b)

  pub contains-remove_self :
      (a : A) (xs : List A) → IsDistinct xs → contains a (remove a xs) ≡ false
  unfolding contains remove
  contains-remove_self a [] h = refl
  contains-remove_self a (x ∷ xs) h = ground (arith, contains-remove_self a xs h.1, e.beq_iff x a)

  contains-remove-false :
      (a b : A) (xs : List A) → contains a xs ≡ false → contains a (remove b xs) ≡ false
  unfolding contains remove
  contains-remove-false a b [] h = refl
  contains-remove-false a b (x ∷ xs) h = ground (arith, contains-remove-false a b xs)

  pub remove-IsDistinct : (a : A) (xs : List A) → IsDistinct xs → IsDistinct (remove a xs)
  unfolding remove
  remove-IsDistinct a [] h = tt
  remove-IsDistinct a (x ∷ xs) h =
      ground (arith, remove-IsDistinct a xs h.1, contains-remove-false x a xs h.0)

  pub append-IsDistinct :
      (a : A) (xs : List A) → contains a xs ≡ false → IsDistinct xs → IsDistinct (xs ++ a ∷ [])
  unfolding contains
  append-IsDistinct a [] h d = (refl, tt)
  append-IsDistinct a (x ∷ xs) h d =
      ground
        (arith, append-IsDistinct a xs, contains-append x xs (a ∷ []), e.beq_iff x a, e.beq_iff a x)
