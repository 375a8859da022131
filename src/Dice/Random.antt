-- ===== src/Dice/Random.antt =====
-- Python's `random`, as an interface: a state, and `randint` with the range that its documentation
-- promises. The dice service draws from it and does nothing else with it.
use mai_bot_trpg_plugin.Prelude.{ℕ, zero, suc, ◌≤◌, List, [], ◌∷◌}

pub record Random : Type 1 where
  pub State : Type 0
  pub randint : ℕ → ℕ → State → ℕ × State
  pub randint_range :
      (lo hi : ℕ) (s : State) → lo ≤ hi → (lo ≤ (randint lo hi s).0) × ((randint lo hi s).0 ≤ hi)

module _ (rng : Random) where
  -- `[random.randint(1, sides) for _ in range(count)]`
  unfoldable pub draw : ℕ → ℕ → rng.State → List ℕ × rng.State
  draw zero sides s = ([], s)
  draw (suc count) sides s =
      let (r, t) = rng.randint 1 sides s in let (rs, u) = draw count sides t in (r ∷ rs, u)
