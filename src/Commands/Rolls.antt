-- ===== src/Commands/Rolls.antt =====
-- `_roll` and `_scene` of components/commands.py, and its class DiceShortcut. The numbers are drawn from any
-- source, which has the given state at the call; whether an image was made is an argument.
use mai_bot_trpg_plugin.Prelude.{
  String, Bool, not, Option, none, some, string_eq, ◌==◌, if◌then◌else◌,
}
use mai_bot_trpg_plugin.Prelude.Int.{pos}
use mai_bot_trpg_plugin.Prelude.Chars.{◌+++◌}
use mai_bot_trpg_plugin.Prelude.Numbers.{show_int}
use mai_bot_trpg_plugin.Json.{Value, num, arr, obj, end, member, to_items}
use mai_bot_trpg_plugin.Player.Defs.{Player}
use mai_bot_trpg_plugin.Session.Defs.{TrpgSession, add_history, add_history_as, is_active}
use mai_bot_trpg_plugin.Storage.Defs.{Storage, get_session, get_player, save_session}
use mai_bot_trpg_plugin.Dice.Random.{Random}
use mai_bot_trpg_plugin.Dice.Parse.{strip_left, strip_right}
use mai_bot_trpg_plugin.Dice.Roll.{DiceService, DiceResult, Rolled, rolled, raised, roll}
use mai_bot_trpg_plugin.Commands.Defs.{Caller, Reply, ok, silent, failed}

-- `{"rolls": result.rolls, "total": result.total}`
unfoldable pub roll_data : DiceResult → Value
unfolding to_items
roll_data r =
    obj (
      member "rolls" (arr (to_items (λ n. num (pos n)) r.rolls)) (member "total" (num r.total) end))

abbrev pub character_of : Option Player → Option String
character_of none = none
character_of (some p) = some p.character_name

-- A roll is recorded where the session is active.
unfoldable pub record_roll : Caller → String → DiceResult → Option TrpgSession → Storage → Storage
unfolding is_active get_player add_history_as save_session show_int roll_data
record_roll c expression r none st = st
record_roll c expression r (some s) st =
    if is_active s
    then save_session c.now
        (add_history_as "dice" (expression +++ " = " +++ show_int r.total) (some c.user_id)
          (character_of (get_player c.stream_id c.user_id st)) (roll_data r) c.now s)
        st
    else st

module _ (rng : Random) (d : DiceService) where
  -- What follows the roll; the text of an error is left out.
  unfoldable pub finish_roll :
      Caller → String → Rolled (DiceResult × rng.State) → Storage → Storage × Reply
  unfolding get_session record_roll
  finish_roll c expression (raised e) st = (st, failed "error")
  finish_roll c expression (rolled (r, g)) st =
      (record_roll c expression r (get_session c.stream_id st) st, silent)

  -- `_roll`; the text that is recorded is the one that was given.
  unfoldable pub roll_command : Caller → String → rng.State → Storage → Storage × Reply
  unfolding strip_left strip_right roll finish_roll
  roll_command c args g st =
      let stripped = strip_right (strip_left args) in
      let expression = if stripped == "" then "d20" else stripped in
      finish_roll c expression (roll rng d expression g) st

  unfoldable pub shortcut_reply : Rolled (DiceResult × rng.State) → Reply
  shortcut_reply (raised e) = failed "error"
  shortcut_reply (rolled (r, g)) = silent

  -- `DiceShortcut.execute`, from the text behind the command, which keeps no record.
  unfoldable pub dice_shortcut : String → rng.State → Reply
  unfolding roll shortcut_reply
  dice_shortcut expr g =
      let expression = if expr == "" then "d20" else expr in
      shortcut_reply (roll rng d expression g)

unfoldable pub scene_with : Caller → Bool → Bool → Option TrpgSession → Storage → Storage × Reply
unfolding is_active add_history save_session
scene_with c enabled made none st = (st, failed "无会话")
scene_with c enabled made (some s) st =
    if not (is_active s)
    then (st, failed "无会话")
    else if not enabled
    then (st, failed "功能未启用")
    else if made
    then (save_session c.now (add_history "system" "生成了场景图片" c.now s) st, ok "图片生成成功")
    else (st, failed "error")

unfoldable pub scene : Caller → Bool → Bool → Storage → Storage × Reply
unfolding get_session scene_with
scene c enabled made st = scene_with c enabled made (get_session c.stream_id st) st
