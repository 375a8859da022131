-- ===== src/DmEngine/Tags.antt =====
-- `parse_state_changes` and `clean_state_tags` of services/dm_engine.py.
use Prim.Native.Char.{Char}
use mai_bot_trpg_plugin.Prelude.{
  String, Bool, not, ◌||◌, List, [], ◌∷◌, string_eq, ◌==◌, if◌then◌else◌,
}
use mai_bot_trpg_plugin.Prelude.Int.{ℤ, pos, neg_ℤ}
use mai_bot_trpg_plugin.Prelude.Dict.{Dict, lookup_or, insert}
use mai_bot_trpg_plugin.Prelude.Chars.{lower}
use mai_bot_trpg_plugin.Prelude.Numbers.{is_digit}
use mai_bot_trpg_plugin.Dice.Parse.{is_white, is_plus, is_minus, number_or, strip_left, strip_right}
use mai_bot_trpg_plugin.DmEngine.Changes.{
  GameStateChange, no_changes, add_hp, add_mp, add_attr, add_item_gain, add_item_loss,
}
use mai_bot_trpg_plugin.DmEngine.Pattern.{
  Pattern, one, many, some_lazy, then_, maybe, group, at_least_one, exactly, any_case, word,
  any_word, find_all,
}

infixr 40 ◌then◌
abbrev ◌then◌ : Pattern → Pattern → Pattern
a then b = then_ a b

abbrev pub spaces : Pattern
spaces = many is_white

abbrev pub some_spaces : Pattern
some_spaces = at_least_one is_white

-- `[+-]?\d+`
abbrev pub number_pattern : Pattern
number_pattern = maybe 0 (one (λ c. is_plus c || is_minus c)) then at_least_one is_digit

-- What stands in square brackets.
unfoldable pub tag : Pattern → Pattern
tag body = one (exactly "[") then body then one (exactly "]")

-- `uid\s*[:=]\s*([^\s\]]+)`
abbrev uid_pattern : (Char → Char → Bool) → Pattern
uid_pattern same =
    word same "uid"
    then spaces
    then one (λ c. exactly ":" c || exactly "=" c)
    then spaces
    then group (at_least_one (λ c. not (is_white c || exactly "]" c)))

abbrev pub scoped : (Char → Char → Bool) → Pattern → Pattern
scoped same body = uid_pattern same then body

abbrev pub hp_body : Pattern
hp_body = any_word any_case "HP" ("生命值" ∷ "生命" ∷ []) then spaces then group number_pattern

abbrev pub mp_body : Pattern
mp_body = any_word any_case "MP" ("魔力值" ∷ "魔力" ∷ []) then spaces then group number_pattern

-- `([^\]]+?)(?:\s*[xX×]\s*(\d+))?`
abbrev item_body : Pattern
item_body =
    group (some_lazy (λ c. not (exactly "]" c)))
    then maybe 1 (
        spaces
        then one (λ c. exactly "x" c || exactly "X" c || exactly "×" c)
        then spaces
        then group (at_least_one is_digit))

abbrev pub gain_body : Pattern
gain_body = word exactly "获得" then some_spaces then item_body

abbrev pub loss_body : Pattern
loss_body = any_word exactly "失去" ("消耗" ∷ "使用" ∷ []) then some_spaces then item_body

abbrev pub attr_word : Pattern
attr_word =
    any_word any_case "力量"
      ("敏捷" ∷ "体质" ∷ "智力" ∷ "感知" ∷ "魅力" ∷ "STR" ∷ "DEX" ∷ "CON" ∷ "INT" ∷ "WIS" ∷ "CHA" ∷ [])

abbrev pub attr_body : Pattern
attr_body = group attr_word then spaces then group number_pattern

-- `state_change_patterns`
unfoldable pub hp_scoped : Pattern
unfolding tag word any_word
hp_scoped = tag (scoped any_case (some_spaces then hp_body))

unfoldable pub mp_scoped : Pattern
unfolding tag word any_word
mp_scoped = tag (scoped any_case (some_spaces then mp_body))

unfoldable pub item_gain_scoped : Pattern
unfolding tag word any_word
item_gain_scoped = tag (scoped exactly (some_spaces then gain_body))

unfoldable pub item_loss_scoped : Pattern
unfolding tag word any_word
item_loss_scoped = tag (scoped exactly (some_spaces then loss_body))

unfoldable pub attr_scoped : Pattern
unfolding tag word any_word
attr_scoped = tag (scoped any_case (spaces then attr_body))

unfoldable pub hp_tag : Pattern
unfolding tag word any_word
hp_tag = tag hp_body

unfoldable pub mp_tag : Pattern
unfolding tag word any_word
mp_tag = tag mp_body

unfoldable pub item_gain_tag : Pattern
unfolding tag word any_word
item_gain_tag = tag gain_body

unfoldable pub item_loss_tag : Pattern
unfolding tag word any_word
item_loss_tag = tag loss_body

unfoldable pub attr_tag : Pattern
unfolding tag word any_word
attr_tag = tag attr_body

abbrev pub location_body : Pattern
location_body =
    any_word exactly "移动到" ("进入" ∷ "来到" ∷ "到达" ∷ [])
    then some_spaces
    then group (at_least_one (λ c. not (exactly "]" c)))

abbrev pub time_body : Pattern
time_body = word exactly "时间" then some_spaces then group (at_least_one (λ c. not (exactly "]" c)))

unfoldable pub location_tag : Pattern
unfolding tag word any_word
location_tag = tag location_body

unfoldable pub time_tag : Pattern
unfolding tag word any_word
time_tag = tag time_body

-- `int(s)`, of what `number_pattern` matches.
unfoldable pub int_of : String → ℤ
int_of String.[] = pos 0
int_of (String.◌∷◌ c s) =
    if is_plus c
    then pos (number_or 0 s)
    else if is_minus c
    then neg_ℤ (pos (number_or 0 s))
    else pos (number_or 0 (String.◌∷◌ c s))

abbrev strip : String → String
strip s = strip_right (strip_left s)

abbrev pub attr_map : Dict String String
attr_map =
    ("力量", "strength")
    ∷ ("str", "strength")
    ∷ ("敏捷", "dexterity")
    ∷ ("dex", "dexterity")
    ∷ ("体质", "constitution")
    ∷ ("con", "constitution")
    ∷ ("智力", "intelligence")
    ∷ ("int", "intelligence")
    ∷ ("感知", "wisdom")
    ∷ ("wis", "wisdom")
    ∷ ("魅力", "charisma")
    ∷ ("cha", "charisma")
    ∷ []

-- What one match adds, from its groups: the user, where the tag names one, and the rest.
unfoldable pub add_match :
    (String → List String → GameStateChange → GameStateChange)
    → List (List String)
    → GameStateChange
    → GameStateChange
add_match add [] c = c
add_match add ([] ∷ ms) c = add_match add ms c
add_match add ((uid ∷ groups) ∷ ms) c = add_match add ms (add uid groups c)

unfoldable pub add_match_of :
    (List String → GameStateChange → GameStateChange)
    → List (List String)
    → GameStateChange
    → GameStateChange
add_match_of add [] c = c
add_match_of add (groups ∷ ms) c = add_match_of add ms (add groups c)

unfoldable pub add_number :
    (String → ℤ → GameStateChange → GameStateChange)
    → String
    → List String
    → GameStateChange
    → GameStateChange
unfolding int_of
add_number add uid [] c = c
add_number add uid (delta_str ∷ groups) c = add uid (int_of delta_str) c

-- A quantity that is left out is 1.
unfoldable pub add_item_groups :
    (String → String → ℤ → GameStateChange → GameStateChange)
    → String
    → List String
    → GameStateChange
    → GameStateChange
unfolding strip_left strip_right
add_item_groups add uid [] c = c
add_item_groups add uid (item_name ∷ []) c = c
add_item_groups add uid (item_name ∷ qty_str ∷ groups) c =
    add uid (strip item_name) (if qty_str == "" then pos 1 else pos (number_or 0 qty_str)) c

unfoldable pub add_attr_groups : String → List String → GameStateChange → GameStateChange
unfolding add_attr lookup_or lower int_of
add_attr_groups uid [] c = c
add_attr_groups uid (attr_name ∷ []) c = c
add_attr_groups uid (attr_name ∷ delta_str ∷ groups) c =
    add_attr uid (lookup_or (lower attr_name) (lower attr_name) attr_map) (int_of delta_str) c

-- The tags that name their user.
unfoldable pub parse_scoped : String → GameStateChange → GameStateChange
unfolding find_all hp_scoped mp_scoped item_gain_scoped item_loss_scoped attr_scoped add_match
    add_number add_item_groups add_attr_groups add_hp add_mp add_item_gain add_item_loss
parse_scoped text c = add_match add_attr_groups (find_all attr_scoped text 0) (
    add_match (add_item_groups add_item_loss) (find_all item_loss_scoped text 0) (
      add_match (add_item_groups add_item_gain) (find_all item_gain_scoped text 0) (
        add_match (add_number add_mp) (find_all mp_scoped text 0)
          (add_match (add_number add_hp) (find_all hp_scoped text 0) c))))

-- The tags of the old form, which go to one user.
unfoldable pub parse_default : String → String → GameStateChange → GameStateChange
unfolding find_all hp_tag mp_tag item_gain_tag item_loss_tag attr_tag add_match_of add_number
    add_item_groups add_attr_groups add_hp add_mp add_item_gain add_item_loss
parse_default uid text c = add_match_of (add_attr_groups uid) (find_all attr_tag text 0) (
    add_match_of (add_item_groups add_item_loss uid) (find_all item_loss_tag text 0) (
      add_match_of (add_item_groups add_item_gain uid) (find_all item_gain_tag text 0) (
        add_match_of (add_number add_mp uid) (find_all mp_tag text 0)
          (add_match_of (add_number add_hp uid) (find_all hp_tag text 0) c))))

-- The last match of a tag of the world.
unfoldable pub add_last : String → List (List String) → Dict String String → Dict String String
unfolding insert strip_left strip_right
add_last key [] d = d
add_last key ((value ∷ []) ∷ []) d = insert key (strip value) d
add_last key (m ∷ ms) d = add_last key ms d

unfoldable pub parse_world : String → GameStateChange → GameStateChange
unfolding find_all location_tag time_tag add_last
parse_world text c = record c {
  world_changes =
      add_last "time" (find_all time_tag text 0)
        (add_last "location" (find_all location_tag text 0) c.world_changes);
}

-- The user is the id of the player, empty where no player is given.
unfoldable pub parse_state_changes : String → String → GameStateChange
unfolding parse_scoped parse_default parse_world
parse_state_changes text default_user_id =
    let own = parse_scoped text no_changes in
    parse_world text (if default_user_id == "" then own else parse_default default_user_id text own)
