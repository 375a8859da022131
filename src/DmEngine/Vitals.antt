-- ===== src/DmEngine/Vitals.antt =====
-- The hit points and the magic points after `apply_state_changes` of services/dm_engine.py.
use mai_bot_trpg_plugin.Prelude.{
  ℕ, String, ◌≡◌, refl, ◌∙◌, ap, Option, none, some, List, [], ◌∷◌, string_eq, Option-cases, inl,
  inr,
}
use mai_bot_trpg_plugin.Prelude.Int.{ℤ, pos, ◌+ℤ◌, max_ℤ, min_ℤ}
use mai_bot_trpg_plugin.Prelude.Dict.{Dict, lookup}
use mai_bot_trpg_plugin.Player.Attributes.{get_attribute, set_attribute}
use mai_bot_trpg_plugin.Player.Defs.{Player, modify_hp, modify_mp, add_item, remove_item}
use mai_bot_trpg_plugin.DmEngine.Changes.{GameStateChange}
use mai_bot_trpg_plugin.DmEngine.Apply.{
  Worked, attr_note, gain_note, change_hp, change_mp, note_attr, change_attr, change_attrs,
  gain_items, lose_items,
}
use mai_bot_trpg_plugin.DmEngine.Work.{
  vitals, note_first_lem, lose_item_lem, add_item-keeps, remove_item-keeps,
}
use mai_bot_trpg_plugin.DmEngine.Users.{settle}
use mai_bot_trpg_plugin.DmEngine.Settle.{settled}

change_attrs-vitals : (d : Dict String ℤ) (p : Player) → vitals (change_attrs d p).0 ≡ vitals p
unfolding change_attrs
change_attrs-vitals [] p = refl
change_attrs-vitals ((name, delta) ∷ rest) p =
    elim (Option-cases (get_attribute name p.attributes)) [
      | inl e ↦ rw e (unfold change_attr in refl)
      | inr (n, e) ↦
          rw (e, change_attr)
            (elim (Option-cases (set_attribute name (n +ℤ delta) p.attributes)) [
              | inl f ↦ rw f (unfold note_attr in refl)
              | inr (r, f) ↦
                  let q : Player = record p { attributes = r.0 } in
                  rw f (
                    unfold note_attr in
                    ap vitals
                      (note_first_lem (attr_note p.character_name name n (n +ℤ delta) delta)
                        (change_attrs rest q)).0
                    ∙ change_attrs-vitals rest q)
            ])
    ]

gain_items-vitals :
    (now : ℕ) (items : List (String × ℤ)) (p : Player)
    → vitals (gain_items now items p).0 ≡ vitals p
unfolding gain_items
gain_items-vitals now [] p = refl
gain_items-vitals now ((name, qty) ∷ rest) p =
    let q = (add_item name qty now p).0 in
    ap vitals (note_first_lem (gain_note p.character_name name qty) (gain_items now rest q)).0
    ∙ gain_items-vitals now rest q
    ∙ (add_item-keeps name qty now p).1

lose_items-vitals :
    (now : ℕ) (items : List (String × ℤ)) (p : Player)
    → vitals (lose_items now items p).0 ≡ vitals p
unfolding lose_items
lose_items-vitals now [] p = refl
lose_items-vitals now ((name, qty) ∷ rest) p =
    ap vitals (lose_item_lem (lose_items now rest) name qty (remove_item name qty now p)).0
    ∙ lose_items-vitals now rest (remove_item name qty now p).0
    ∙ (remove_item-keeps name qty now p).1

settle-vitals :
    {V : Type 0} (work : V → Player → Worked) (d : Dict String V) (w : String) (p : Player)
    → ((v : V) (q : Player) → vitals (work v q).0 ≡ vitals q)
    → vitals (settle work d w p) ≡ vitals p
settle-vitals work d w p h = elim (Option-cases (lookup w d)) [
  | inl e ↦ rw (settle, e)
  | inr (v, e) ↦ rw (settle, e) (h v p)
]

-- A value after the change that a user gets, if any: it stays between 0 and its maximum.
abbrev pub value_after : Option ℤ → ℤ → ℤ → ℤ
value_after none current max = current
value_after (some delta) current max = max_ℤ (pos 0) (min_ℤ max (current +ℤ delta))

settle-hp :
    (now : ℕ) (d : Dict String ℤ) (w : String) (p : Player)
    → vitals (settle (change_hp now) d w p)
      ≡ (value_after (lookup w d) p.hp_current p.hp_max, p.hp_max, p.mp_current, p.mp_max)
settle-hp now d w p = elim (Option-cases (lookup w d)) [
  | inl e ↦ rw (settle, e)
  | inr (v, e) ↦ rw (settle, e) (unfold change_hp in unfold modify_hp in refl)
]

settle-mp :
    (now : ℕ) (d : Dict String ℤ) (w : String) (p : Player)
    → vitals (settle (change_mp now) d w p)
      ≡ (p.hp_current, p.hp_max, value_after (lookup w d) p.mp_current p.mp_max, p.mp_max)
settle-mp now d w p = elim (Option-cases (lookup w d)) [
  | inl e ↦ rw (settle, e)
  | inr (v, e) ↦ rw (settle, e) (unfold change_mp in unfold modify_mp in refl)
]

-- The changes of a character move its hit points by the change of its user, within 0 and the maximum,
-- and its magic points in the same way, both maxima stay, and what else is changed touches neither.
pub settled-vitals :
    (now : ℕ) (c : GameStateChange) (w : String) (p : Player)
    → vitals (settled now c w p) ≡ (
      value_after (lookup w c.hp_changes) p.hp_current p.hp_max,
      p.hp_max,
      value_after (lookup w c.mp_changes) p.mp_current p.mp_max,
      p.mp_max,
    )
unfolding settled
settled-vitals now c w p =
    let p1 = settle (change_hp now) c.hp_changes w p in
    let p2 = settle (change_mp now) c.mp_changes w p1 in
    let p3 = settle change_attrs c.attr_changes w p2 in
    let p4 = settle (gain_items now) c.item_gains w p3 in
    settle-vitals (lose_items now) c.item_losses w p4 (lose_items-vitals now)
    ∙ settle-vitals (gain_items now) c.item_gains w p3 (gain_items-vitals now)
    ∙ settle-vitals change_attrs c.attr_changes w p2 change_attrs-vitals
    ∙ settle-mp now c.mp_changes w p1
    ∙ ap (λ (v : ℤ × ℤ × ℤ × ℤ). (v.0, v.1, value_after (lookup w c.mp_changes) v.2 v.3, v.3))
        (settle-hp now c.hp_changes w p)
