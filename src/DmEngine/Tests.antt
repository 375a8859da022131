-- ===== src/DmEngine/Tests.antt =====
-- Runs of services/dm_engine.py.
use mai_bot_trpg_plugin.Prelude.{
  ◌≤◌, ◌<◌, String, ◌≡◌, refl, sym, ap, ◌⊎◌, true, ◌&&◌, ◌||◌, some, [], ◌∷◌, arith, string_eq,
  ◌==◌, Bool-cases, inl, inr, is_some, leb, length,
}
use mai_bot_trpg_plugin.Prelude.Int.{pos, negsuc, ◌+ℤ◌, ◌-ℤ◌, neg_ℤ}
use mai_bot_trpg_plugin.Prelude.Numbers.{is_digit, parse_digits, show_signed}
use mai_bot_trpg_plugin.DmEngine.HpTag.{hp_text}
use mai_bot_trpg_plugin.DmEngine.HpRead.{parse_state_changes-hp_tag}
use mai_bot_trpg_plugin.Dice.Parse.{is_white}
use mai_bot_trpg_plugin.Prelude.Dict.{lookup, has_key}
use mai_bot_trpg_plugin.Prelude.Chars.{lower, lower_char, ◌+++◌}
use mai_bot_trpg_plugin.Json.{◌>>=◌}
use mai_bot_trpg_plugin.Player.Attributes.{resolve}
use mai_bot_trpg_plugin.Player.Defs.{Player}
use mai_bot_trpg_plugin.Player.Tests.{hero}
use mai_bot_trpg_plugin.Session.Defs.{trim_history, mark_summary, mark_image, add_history}
use mai_bot_trpg_plugin.Session.Tests.{tale}
use mai_bot_trpg_plugin.Storage.Defs.{get_player}
use mai_bot_trpg_plugin.Storage.Tests.{running, table_one}
use mai_bot_trpg_plugin.DmEngine.Changes.{GameStateChange, no_changes}
use mai_bot_trpg_plugin.DmEngine.Tags.{parse_state_changes}
use mai_bot_trpg_plugin.DmEngine.Tidy.{IsTidy}
use mai_bot_trpg_plugin.DmEngine.Clean.{clean_state_tags}
use mai_bot_trpg_plugin.DmEngine.Untagged.{IsUntagged, parse_state_changes-untagged}
use mai_bot_trpg_plugin.DmEngine.Apply.{apply_state_changes}
use mai_bot_trpg_plugin.DmEngine.Work.{is_intact, AllWritable, vitals, IsNumeric}
use mai_bot_trpg_plugin.DmEngine.Settle.{settled, IsSound, apply_state_changes-settled}
use mai_bot_trpg_plugin.DmEngine.Vitals.{value_after, settled-vitals}
use mai_bot_trpg_plugin.DmEngine.Story.{
  count_keywords, climax_keywords, tension_up_keywords, tension_down_keywords, detect_climax,
  update_tension_level, should_update_summary,
}
use mai_bot_trpg_plugin.DmEngine.Moments.{
  update_tension_level_lem, continued, should_update_summary-mark_summary, detect_climax-mark_image,
  trim_history_moments,
}

-- A hit, a gain of strength and a key.
abbrev fight : GameStateChange
fight = record no_changes {
  hp_changes = ("u1", negsuc 4) ∷ ("u2", pos 3) ∷ [];
  attr_changes = ("u1", ("strength", pos 2) ∷ []) ∷ [];
  item_gains = ("u1", ("key", pos 1) ∷ []) ∷ [];
  world_changes = ("location", "cave") ∷ [];
}

strength_IsNumeric : IsNumeric "strength"
unfolding resolve
strength_IsNumeric m e = absurd (cc e)

fight-IsSound : IsSound fight
unfolding lookup
fight-IsSound = record {
  hp_users = (refl, (refl, tt));
  mp_users = tt;
  attr_users = (refl, tt);
  gain_users = (refl, tt);
  loss_users = tt;
  numeric = ((strength_IsNumeric, tt), tt);
}

table_one-AllWritable : AllWritable "g1" table_one
unfolding get_player lookup has_key is_intact
table_one-AllWritable w p e = elim (Bool-cases ("u1" == w)) [
  | inl here ↦
      let same : hero ≡ p = cc (rw here at e) in
      ap (λ (q : Player). is_intact q.attributes.overwritten) (sym same)
  | inr other ↦ absurd (cc (rw other at e))
]

apply_state_changes-settled_example :
    let (t, notes) = apply_state_changes fight running 9 table_one in
    (is_some notes ≡ true)
    × ((w : String)
        → get_player "g1" w t ≡ (get_player "g1" w table_one >>= λ p. some (settled 9 fight w p)))
unfolding add_history mark_summary
apply_state_changes-settled_example =
    apply_state_changes-settled fight running 9 table_one fight-IsSound table_one-AllWritable

settled-vitals_example : vitals (settled 9 fight "u1" hero) ≡ (
  value_after (lookup "u1" fight.hp_changes) hero.hp_current hero.hp_max,
  hero.hp_max,
  value_after (lookup "u1" fight.mp_changes) hero.mp_current hero.mp_max,
  hero.mp_max,
)
settled-vitals_example = settled-vitals 9 fight "u1" hero

danger : count_keywords tension_up_keywords (lower "危险! 敌人 ...") ≡ 2
unfolding count_keywords lower
danger = refl

update_tension_level_lem_example :
    let level = tale.story_context.tension_level in
    let after = (update_tension_level "危险! 敌人 ..." tale).story_context.tension_level in
    let up = count_keywords tension_up_keywords (lower "危险! 敌人 ...") in
    let down = count_keywords tension_down_keywords (lower "危险! 敌人 ...") in
    (after ≤ 10)
    × (up ≡ down → after ≡ level)
    × (down < up → (level < after) ⊎ (level ≡ 10))
    × (up < down → (after < level) ⊎ (level ≡ 0))
update_tension_level_lem_example =
    update_tension_level_lem "危险! 敌人 ..." tale (unfold add_history mark_summary in omega arith)

should_update_summary-mark_summary_example :
    should_update_summary (continued tale.history (mark_summary "so far" tale))
    ≡ leb 10 (length tale.history)
should_update_summary-mark_summary_example =
    should_update_summary-mark_summary "so far" tale.history tale

detect_climax-mark_image_example :
    let count = count_keywords climax_keywords (lower "突然 ...") in
    detect_climax true "突然 ..." (continued tale.history (mark_image tale)) ≡ (
      leb 5 (length tale.history)
      && (leb 2 count || leb 7 tale.story_context.tension_level && leb 1 count))
detect_climax-mark_image_example = detect_climax-mark_image "突然 ..." tale.history tale

trim_history_moments_example :
    let t = (trim_history 12 9 tale).0 in
    (should_update_summary t ≡ should_update_summary tale)
    × (detect_climax true "突然 ..." t ≡ detect_climax true "突然 ..." tale)
trim_history_moments_example = trim_history_moments 12 9 true "突然 ..." tale (omega arith)

abbrev reply : String
reply = "Ow! [HP -5] [uid: u2 MP +3] ... [获得 key x2][力量+1][进入  cave ]"

parse_reply : parse_state_changes reply "u1" ≡ record no_changes {
  hp_changes = ("u1", negsuc 4) ∷ [];
  mp_changes = ("u2", pos 3) ∷ [];
  attr_changes = ("u1", ("strength", pos 1) ∷ []) ∷ [];
  item_gains = ("u1", ("key", pos 2) ∷ []) ∷ [];
  world_changes = ("location", "cave") ∷ [];
}
unfolding parse_state_changes is_digit is_white neg_ℤ parse_digits ◌+ℤ◌ ◌-ℤ◌
parse_reply = refl

clean_reply : clean_state_tags reply ≡ "Ow! ..."
unfolding clean_state_tags is_digit is_white lower_char
clean_reply = refl

quiet-IsTidy : IsTidy "All is quiet."
unfolding is_white
quiet-IsTidy = record {
  spaced = (
    refl,
    (
      refl,
      (refl, (refl, (refl, (refl, (refl, (refl, (refl, (refl, (refl, (refl, (refl, tt))))))))))),
    ),
  );
  begins = refl;
  ends = refl;
}

quiet-IsUntagged : IsUntagged "All is quiet."
quiet-IsUntagged = (
  refl,
  (
    refl,
    (refl, (refl, (refl, (refl, (refl, (refl, (refl, (refl, (refl, (refl, (refl, tt))))))))))),
  ),
)

parse_state_changes-untagged_example :
    (parse_state_changes "All is quiet." "u1" ≡ no_changes)
    × (clean_state_tags "All is quiet." ≡ "All is quiet.")
parse_state_changes-untagged_example =
    let h = parse_state_changes-untagged "All is quiet." "u1" quiet-IsUntagged in
    (h.0, h.2 quiet-IsTidy)

parse_state_changes-hp_tag_example :
    parse_state_changes ("Ow! " +++ hp_text (show_signed (negsuc 4) +++ "]")) "u1"
    ≡ record no_changes { hp_changes = ("u1", negsuc 4) ∷ [] }
parse_state_changes-hp_tag_example =
    parse_state_changes-hp_tag "u1" "Ow! " "" (negsuc 4) refl (refl, (refl, (refl, (refl, tt)))) tt
