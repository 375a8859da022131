-- ===== src/DmEngine/Untagged.antt =====
-- Responses without a tag, in services/dm_engine.py, and the tag of hit points.
use Prim.Native.Char.{Char}
use text.Mathlib.TextLemmas.{cons-append, nil-append}
use mai_bot_trpg_plugin.Prelude.{
  ℕ, zero, suc, String, ◌≡◌, refl, ◌∙◌, ap, false, List, [], ◌∷◌, string_eq, ◌==◌, if_keeps,
}
use mai_bot_trpg_plugin.Prelude.Chars.{◌+++◌}
use mai_bot_trpg_plugin.Prelude.Numbers.{AllChars}
use mai_bot_trpg_plugin.DmEngine.Changes.{GameStateChange, no_changes}
use mai_bot_trpg_plugin.DmEngine.Pattern.{
  Pattern, then_, exactly, any_case, matches, match_one, match_next, found, find_all, replaced,
  replace_all,
}
use mai_bot_trpg_plugin.DmEngine.Tags.{
  tag, scoped, some_spaces, spaces, hp_body, mp_body, gain_body, loss_body, attr_body,
  location_body, time_body, hp_scoped, mp_scoped, item_gain_scoped, item_loss_scoped, attr_scoped,
  hp_tag, mp_tag, item_gain_tag, item_loss_tag, attr_tag, location_tag, time_tag, add_match,
  add_match_of, add_last, parse_scoped, parse_default, parse_world, parse_state_changes,
}
use mai_bot_trpg_plugin.DmEngine.Tidy.{IsTidy, tidy-same}
use mai_bot_trpg_plugin.DmEngine.Clean.{remove_tags, clean_bodies, tidy, clean_state_tags}

-- No opening square bracket.
abbrev pub IsUntagged : String → Type 0
IsUntagged s = AllChars (λ c. exactly "[" c ≡ false) s

matches-tag :
    (body : Pattern) (c : Char) (s : String)
    → exactly "[" c ≡ false
    → matches (tag body) (String.◌∷◌ c s) ≡ []
unfolding matches tag match_one match_next
matches-tag body c s h = rw h

find_all-skip :
    (body : Pattern) (c : Char) (s : String)
    → exactly "[" c ≡ false
    → find_all (tag body) (String.◌∷◌ c s) 0 ≡ find_all (tag body) s 0
unfolding find_all
find_all-skip body c s h = rw (matches-tag body c s h) (unfold found in refl)

-- Text in front that has no bracket is passed over.
pub find_all-append :
    (body : Pattern) (pre s : String)
    → IsUntagged pre
    → find_all (tag body) (pre +++ s) 0 ≡ find_all (tag body) s 0
find_all-append body String.[] s h = rw (nil-append s)
find_all-append body (String.◌∷◌ c pre) s h =
    ap (λ x. find_all (tag body) x 0) (cons-append c pre s)
    ∙ find_all-skip body c (pre +++ s) h.0
    ∙ find_all-append body pre s h.1

-- Wherever the search goes on.
pub find_all-untagged_from :
    (body : Pattern) (s : String) (n : ℕ) → IsUntagged s → find_all (tag body) s n ≡ []
unfolding find_all
find_all-untagged_from body String.[] n h = refl
find_all-untagged_from body (String.◌∷◌ c s) (suc n) h = find_all-untagged_from body s n h.1
find_all-untagged_from body (String.◌∷◌ c s) zero h =
    rw (matches-tag body c s h.0) (unfold found in find_all-untagged_from body s 0 h.1)

find_all-untagged : (body : Pattern) (s : String) → IsUntagged s → find_all (tag body) s 0 ≡ []
find_all-untagged body s h = find_all-untagged_from body s 0 h

replace_all-untagged :
    (body : Pattern) (by s : String) → IsUntagged s → replace_all (tag body) by s 0 ≡ s
unfolding replace_all
replace_all-untagged body by String.[] h = refl
replace_all-untagged body by (String.◌∷◌ c s) h =
    rw (matches-tag body c s h.0)
      (unfold replaced in ap (String.◌∷◌ c) (replace_all-untagged body by s h.1))

remove_tags-untagged :
    (bodies : List Pattern) (s : String) → IsUntagged s → remove_tags bodies s ≡ s
unfolding remove_tags
remove_tags-untagged [] s h = refl
remove_tags-untagged (body ∷ bodies) s h =
    rw (replace_all-untagged body "" s h) (remove_tags-untagged bodies s h)

parse_scoped-untagged :
    (text : String) (c : GameStateChange) → IsUntagged text → parse_scoped text c ≡ c
unfolding parse_scoped add_match
parse_scoped-untagged text c h =
    let hp_scoped_none : find_all hp_scoped text 0 ≡ [] =
      unfold hp_scoped in find_all-untagged (scoped any_case (then_ some_spaces hp_body)) text h in
    let mp_scoped_none : find_all mp_scoped text 0 ≡ [] =
      unfold mp_scoped in find_all-untagged (scoped any_case (then_ some_spaces mp_body)) text h in
    let item_gain_scoped_none : find_all item_gain_scoped text 0 ≡ [] =
      unfold item_gain_scoped in
      find_all-untagged (scoped exactly (then_ some_spaces gain_body)) text h in
    let item_loss_scoped_none : find_all item_loss_scoped text 0 ≡ [] =
      unfold item_loss_scoped in
      find_all-untagged (scoped exactly (then_ some_spaces loss_body)) text h in
    let attr_scoped_none : find_all attr_scoped text 0 ≡ [] =
      unfold attr_scoped in find_all-untagged (scoped any_case (then_ spaces attr_body)) text h in
    rw (
      hp_scoped_none, mp_scoped_none, item_gain_scoped_none, item_loss_scoped_none,
      attr_scoped_none,
    )

parse_default-untagged :
    (uid text : String) (c : GameStateChange) → IsUntagged text → parse_default uid text c ≡ c
unfolding parse_default add_match_of
parse_default-untagged uid text c h =
    let hp_tag_none : find_all hp_tag text 0 ≡ [] =
      unfold hp_tag in find_all-untagged hp_body text h in
    let mp_tag_none : find_all mp_tag text 0 ≡ [] =
      unfold mp_tag in find_all-untagged mp_body text h in
    let item_gain_tag_none : find_all item_gain_tag text 0 ≡ [] =
      unfold item_gain_tag in find_all-untagged gain_body text h in
    let item_loss_tag_none : find_all item_loss_tag text 0 ≡ [] =
      unfold item_loss_tag in find_all-untagged loss_body text h in
    let attr_tag_none : find_all attr_tag text 0 ≡ [] =
      unfold attr_tag in find_all-untagged attr_body text h in
    rw (hp_tag_none, mp_tag_none, item_gain_tag_none, item_loss_tag_none, attr_tag_none)

parse_world-untagged :
    (text : String) (c : GameStateChange) → IsUntagged text → parse_world text c ≡ c
unfolding parse_world add_last
parse_world-untagged text c h =
    let location_tag_none : find_all location_tag text 0 ≡ [] =
      unfold location_tag in find_all-untagged location_body text h in
    let time_tag_none : find_all time_tag text 0 ≡ [] =
      unfold time_tag in find_all-untagged time_body text h in
    rw (location_tag_none, time_tag_none)

-- A response without an opening square bracket changes nothing, whoever it is for. No tag is removed
-- from it: what is left to do is the last step, `tidy`. Where it also has no white space behind white
-- space and none at either end, it is kept as it is, character by character.
pub parse_state_changes-untagged :
    (text uid : String)
    → IsUntagged text
    → (parse_state_changes text uid ≡ no_changes)
      × (clean_state_tags text ≡ tidy text)
      × (IsTidy text → clean_state_tags text ≡ text)
unfolding parse_state_changes clean_state_tags
parse_state_changes-untagged text uid h = (
  rw (parse_scoped-untagged text no_changes h, parse_default-untagged uid text no_changes h)
      (if_keeps (λ c. parse_world text c ≡ no_changes) (uid == "")
        (λ _. parse_world-untagged text no_changes h)
        (λ _. parse_world-untagged text no_changes h)),
  rw (remove_tags-untagged clean_bodies text h),
  λ k. rw (remove_tags-untagged clean_bodies text h) (tidy-same text k),
)
