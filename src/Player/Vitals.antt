-- ===== src/Player/Vitals.antt =====
-- Hit points and magic points of models/player.py.
use mai_bot_trpg_plugin.Prelude.{ℕ, ◌≡◌, refl, ◌↔◌, false, arith}
use mai_bot_trpg_plugin.Prelude.Int.{ℤ, pos, ◌+ℤ◌, ◌≤ℤ◌, ◌<ℤ◌, clamp_bounds, clamp_inside}
use mai_bot_trpg_plugin.Player.Defs.{Player, modify_hp, modify_mp, is_alive}

-- Where the maximum is not negative, a change of hit points reports the values before and after, stays
-- between 0 and the maximum, and is exact where the sum lies between them.
pub modify_hp_bounds :
    (amount : ℤ) (now : ℕ) (p : Player)
    → pos 0 ≤ℤ p.hp_max
    → let (q, old, new) = modify_hp amount now p in
      (old ≡ p.hp_current)
      × (new ≡ q.hp_current)
      × (pos 0 ≤ℤ new)
      × (new ≤ℤ p.hp_max)
      × (pos 0 ≤ℤ p.hp_current +ℤ amount
          → p.hp_current +ℤ amount ≤ℤ p.hp_max
          → new ≡ p.hp_current +ℤ amount)
unfolding modify_hp
modify_hp_bounds amount now p h =
    let (lo, hi) = clamp_bounds (pos 0) p.hp_max (p.hp_current +ℤ amount) h in
    (refl, refl, lo, hi, clamp_inside (pos 0) p.hp_max (p.hp_current +ℤ amount))

-- Where the maximum is not negative, a change of magic points reports the values before and after,
-- stays between 0 and the maximum, and is exact where the sum lies between them.
pub modify_mp_bounds :
    (amount : ℤ) (now : ℕ) (p : Player)
    → pos 0 ≤ℤ p.mp_max
    → let (q, old, new) = modify_mp amount now p in
      (old ≡ p.mp_current)
      × (new ≡ q.mp_current)
      × (pos 0 ≤ℤ new)
      × (new ≤ℤ p.mp_max)
      × (pos 0 ≤ℤ p.mp_current +ℤ amount
          → p.mp_current +ℤ amount ≤ℤ p.mp_max
          → new ≡ p.mp_current +ℤ amount)
unfolding modify_mp
modify_mp_bounds amount now p h =
    let (lo, hi) = clamp_bounds (pos 0) p.mp_max (p.mp_current +ℤ amount) h in
    (refl, refl, lo, hi, clamp_inside (pos 0) p.mp_max (p.mp_current +ℤ amount))

-- A character with a positive maximum is down after a change exactly when the sum of its hit points
-- and the change is not positive.
pub is_alive-modify_hp :
    (amount : ℤ) (now : ℕ) (p : Player)
    → pos 0 <ℤ p.hp_max
    → (is_alive (modify_hp amount now p).0 ≡ false) ↔ (p.hp_current +ℤ amount ≤ℤ pos 0)
unfolding is_alive modify_hp
is_alive-modify_hp amount now p h = (λ dead. ground arith, λ low. ground arith)
