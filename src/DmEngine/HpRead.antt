-- ===== src/DmEngine/HpRead.antt =====
-- A response with the tag of hit points is read as that change, in services/dm_engine.py.
use Prim.Native.Char.{Char}
use text.Mathlib.TextLemmas.{cons-append, nil-append}
use mai_bot_trpg_plugin.Prelude.{
  ℕ, suc, ◌-◌, String, ◌≡◌, refl, ◌∙◌, ap, true, false, [], ◌∷◌, arith, string_eq, ◌==◌,
}
use mai_bot_trpg_plugin.Prelude.Int.{ℤ, pos, negsuc, neg_ℤ, ◌+ℤ◌, int_laws}
use mai_bot_trpg_plugin.Prelude.Dict.{lookup, lookup_or, insert}
use mai_bot_trpg_plugin.Prelude.Chars.{◌+++◌, lower_char}
use mai_bot_trpg_plugin.Prelude.Numbers.{
  show_nat, show_signed, show_nat-AllChars, parse_digits-show_nat,
}
use mai_bot_trpg_plugin.Dice.Parse.{is_white, number_or}
use mai_bot_trpg_plugin.Dice.Roll.{text_length}
use mai_bot_trpg_plugin.DmEngine.Changes.{GameStateChange, no_changes, add_hp, add_delta}
use mai_bot_trpg_plugin.DmEngine.Pattern.{
  Pattern, then_, exactly, any_case, matches, match_one, match_next, find_all, found, word,
  any_word,
}
use mai_bot_trpg_plugin.DmEngine.Tags.{
  tag, scoped, some_spaces, spaces, hp_body, mp_body, gain_body, loss_body, attr_body,
  location_body, time_body, hp_scoped, mp_scoped, item_gain_scoped, item_loss_scoped, attr_scoped,
  mp_tag, item_gain_tag, item_loss_tag, attr_tag, location_tag, time_tag, hp_tag, add_match,
  add_match_of, add_number, add_last, int_of, parse_scoped, parse_default, parse_world,
  parse_state_changes,
}
use mai_bot_trpg_plugin.DmEngine.Untagged.{IsUntagged, find_all-append, find_all-untagged_from}
use mai_bot_trpg_plugin.DmEngine.HpTag.{is_sign, signed_text, hp_text, hp_tag-Takes}

append-IsUntagged : (s t : String) → IsUntagged s → IsUntagged t → IsUntagged (s +++ t)
append-IsUntagged String.[] t h k = rw (nil-append t) k
append-IsUntagged (String.◌∷◌ c s) t h k = rw (cons-append c s t) (h.0, append-IsUntagged s t h.1 k)

-- The text of the tag behind its bracket.
abbrev rest_of : String → String
rest_of s = String.◌∷◌ "H" (String.◌∷◌ "P" (String.◌∷◌ " " s))

rest-IsUntagged :
    (sign : Char) (n : ℕ) (post : String)
    → exactly "[" sign ≡ false
    → IsUntagged post
    → IsUntagged (rest_of (signed_text sign n post))
rest-IsUntagged sign n post h k =
    let digits = show_nat-AllChars (λ c. exactly "[" c ≡ false) (λ c lo hi. ground arith) n in
    (
      refl,
      (refl, (refl, (h, append-IsUntagged (show_nat n) (String.◌∷◌ "]" post) digits (refl, k)))),
    )

-- A pattern that does not match the tag finds nothing.
find_all-passed :
    (body : Pattern) (pre x : String)
    → IsUntagged pre
    → IsUntagged (rest_of x)
    → matches (tag body) (hp_text x) ≡ []
    → find_all (tag body) (pre +++ hp_text x) 0 ≡ []
find_all-passed body pre x h k e = find_all-append body pre (hp_text x) h ∙ here
  where
    here : find_all (tag body) (hp_text x) 0 ≡ []
    here = unfold find_all in rw e (unfold found in find_all-untagged_from body (rest_of x) 0 k)

find_all-hp_tag :
    (sign : Char) (n : ℕ) (pre post : String)
    → is_sign sign ≡ true
    → is_white sign ≡ false
    → IsUntagged pre
    → IsUntagged (rest_of (signed_text sign n post))
    → find_all hp_tag (pre +++ hp_text (signed_text sign n post)) 0
      ≡ (String.◌∷◌ sign (show_nat n) ∷ []) ∷ []
unfolding hp_tag
find_all-hp_tag sign n pre post s w h k =
    find_all-append hp_body pre (hp_text (signed_text sign n post)) h ∙ here
  where
    here :
        find_all (tag hp_body) (hp_text (signed_text sign n post)) 0
        ≡ (String.◌∷◌ sign (show_nat n) ∷ []) ∷ []
    here =
        let (u, (ms, e)) = hp_tag-Takes sign n post s w in
        unfold find_all in
        rw e (
          unfold found in
          ap (λ more. (String.◌∷◌ sign (show_nat n) ∷ []) ∷ more)
            (find_all-untagged_from hp_body (rest_of (signed_text sign n post)) (text_length u - 1)
              k))

module _ (pre x : String) (h : IsUntagged pre) (quiet : IsUntagged (rest_of x)) where
  abbrev whole : String
  whole = pre +++ hp_text x

  scoped_passed : (c : GameStateChange) → parse_scoped whole c ≡ c
  unfolding parse_scoped add_match
  scoped_passed c =
      let hp_scoped_none : find_all hp_scoped whole 0 ≡ [] =
        unfold hp_scoped in
        find_all-passed (scoped any_case (then_ some_spaces hp_body)) pre x h quiet (
          unfold matches in
          unfold match_one in
          unfold match_next in
          unfold lower_char in unfold is_white in unfold any_word in unfold word in refl) in
      let mp_scoped_none : find_all mp_scoped whole 0 ≡ [] =
        unfold mp_scoped in
        find_all-passed (scoped any_case (then_ some_spaces mp_body)) pre x h quiet (
          unfold matches in
          unfold match_one in
          unfold match_next in
          unfold lower_char in unfold is_white in unfold any_word in unfold word in refl) in
      let item_gain_scoped_none : find_all item_gain_scoped whole 0 ≡ [] =
        unfold item_gain_scoped in
        find_all-passed (scoped exactly (then_ some_spaces gain_body)) pre x h quiet (
          unfold matches in
          unfold match_one in
          unfold match_next in
          unfold lower_char in unfold is_white in unfold any_word in unfold word in refl) in
      let item_loss_scoped_none : find_all item_loss_scoped whole 0 ≡ [] =
        unfold item_loss_scoped in
        find_all-passed (scoped exactly (then_ some_spaces loss_body)) pre x h quiet (
          unfold matches in
          unfold match_one in
          unfold match_next in
          unfold lower_char in unfold is_white in unfold any_word in unfold word in refl) in
      let attr_scoped_none : find_all attr_scoped whole 0 ≡ [] =
        unfold attr_scoped in
        find_all-passed (scoped any_case (then_ spaces attr_body)) pre x h quiet (
          unfold matches in
          unfold match_one in
          unfold match_next in
          unfold lower_char in unfold is_white in unfold any_word in unfold word in refl) in
      rw (
        hp_scoped_none, mp_scoped_none, item_gain_scoped_none, item_loss_scoped_none,
        attr_scoped_none,
      )

  world_passed : (c : GameStateChange) → parse_world whole c ≡ c
  unfolding parse_world add_last
  world_passed c =
      let location_tag_none : find_all location_tag whole 0 ≡ [] =
        unfold location_tag in
        find_all-passed location_body pre x h quiet (
          unfold matches in
          unfold match_one in
          unfold match_next in
          unfold lower_char in unfold is_white in unfold any_word in unfold word in refl) in
      let time_tag_none : find_all time_tag whole 0 ≡ [] =
        unfold time_tag in
        find_all-passed time_body pre x h quiet (
          unfold matches in
          unfold match_one in
          unfold match_next in
          unfold lower_char in unfold is_white in unfold any_word in unfold word in refl) in
      rw (location_tag_none, time_tag_none)

  default_passed :
      (uid : String) (c : GameStateChange)
      → parse_default uid whole c ≡ add_match_of (add_number add_hp uid) (find_all hp_tag whole 0) c
  unfolding parse_default add_match_of
  default_passed uid c =
      let mp_tag_none : find_all mp_tag whole 0 ≡ [] =
        unfold mp_tag in
        find_all-passed mp_body pre x h quiet (
          unfold matches in
          unfold match_one in
          unfold match_next in
          unfold lower_char in unfold is_white in unfold any_word in unfold word in refl) in
      let item_gain_tag_none : find_all item_gain_tag whole 0 ≡ [] =
        unfold item_gain_tag in
        find_all-passed gain_body pre x h quiet (
          unfold matches in
          unfold match_one in
          unfold match_next in
          unfold lower_char in unfold is_white in unfold any_word in unfold word in refl) in
      let item_loss_tag_none : find_all item_loss_tag whole 0 ≡ [] =
        unfold item_loss_tag in
        find_all-passed loss_body pre x h quiet (
          unfold matches in
          unfold match_one in
          unfold match_next in
          unfold lower_char in unfold is_white in unfold any_word in unfold word in refl) in
      let attr_tag_none : find_all attr_tag whole 0 ≡ [] =
        unfold attr_tag in
        find_all-passed attr_body pre x h quiet (
          unfold matches in
          unfold match_one in
          unfold match_next in
          unfold lower_char in unfold is_white in unfold any_word in unfold word in refl) in
      rw (mp_tag_none, item_gain_tag_none, item_loss_tag_none, attr_tag_none)

-- The number of the tag is read back.
int_of-show_signed : (m : ℤ) → int_of (show_signed m) ≡ m
unfolding int_of show_signed neg_ℤ
int_of-show_signed (pos n) = rw (number_or, parse_digits-show_nat n)
int_of-show_signed (negsuc n) = rw (number_or, parse_digits-show_nat (suc n)) (omega int_laws)

parse_tag :
    (uid pre post : String) (m : ℤ) (sign : Char) (n : ℕ)
    → (uid == "") ≡ false
    → IsUntagged pre
    → IsUntagged post
    → is_sign sign ≡ true
    → is_white sign ≡ false
    → exactly "[" sign ≡ false
    → int_of (String.◌∷◌ sign (show_nat n)) ≡ m
    → parse_state_changes (pre +++ hp_text (signed_text sign n post)) uid
      ≡ record no_changes { hp_changes = (uid, m) ∷ [] }
parse_tag uid pre post m sign n named h k s w b value =
    let x = signed_text sign n post in
    let quiet = rest-IsUntagged sign n post b k in
    let text_ = pre +++ hp_text x in
    let found_one : find_all hp_tag text_ 0 ≡ (String.◌∷◌ sign (show_nat n) ∷ []) ∷ [] =
      find_all-hp_tag sign n pre post s w h quiet in
    let hp : parse_default uid text_ no_changes ≡ add_hp uid m no_changes =
      default_passed pre x h quiet uid no_changes
      ∙ ap (λ ms. add_match_of (add_number add_hp uid) ms no_changes) found_one
      ∙ unfold add_match_of add_number in ap (λ k. add_hp uid k no_changes) value in
    unfold parse_state_changes in
    rw (scoped_passed pre x h quiet no_changes, named, hp)
      (world_passed pre x h quiet (add_hp uid m no_changes)
        ∙ unfold add_hp add_delta lookup_or lookup insert in
          λ i. record no_changes { hp_changes = (uid, plus_zero m i) ∷ [] })
  where
    plus_zero : (m : ℤ) → pos 0 +ℤ m ≡ m
    plus_zero m = omega int_laws

-- A response that has the tag `[HP m]` between texts without an opening square bracket, with the
-- sign of the number written, is read as the change of the hit points of the player by that
-- number, and as no other change.
pub parse_state_changes-hp_tag :
    (uid pre post : String) (m : ℤ)
    → (uid == "") ≡ false
    → IsUntagged pre
    → IsUntagged post
    → parse_state_changes (pre +++ hp_text (show_signed m +++ String.◌∷◌ "]" post)) uid
      ≡ record no_changes { hp_changes = (uid, m) ∷ [] }
unfolding show_signed is_white
parse_state_changes-hp_tag uid pre post (pos n) named h k =
    ap (λ x. parse_state_changes (pre +++ hp_text x) uid)
      (cons-append "+" (show_nat n) (String.◌∷◌ "]" post))
    ∙ parse_tag uid pre post (pos n) "+" n named h k refl refl refl (int_of-show_signed (pos n))
parse_state_changes-hp_tag uid pre post (negsuc n) named h k =
    ap (λ x. parse_state_changes (pre +++ hp_text x) uid)
      (cons-append "-" (show_nat (suc n)) (String.◌∷◌ "]" post))
    ∙ parse_tag uid pre post (negsuc n) "-" (suc n) named h k refl refl refl
        (int_of-show_signed (negsuc n))
