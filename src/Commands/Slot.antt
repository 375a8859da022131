-- ===== src/Commands/Slot.antt =====
-- `_slot` of components/commands.py. The recap that follows a load is sent only.
use mai_bot_trpg_plugin.Prelude.{
  ℕ, zero, suc, String, Option, none, some, List, [], ◌∷◌, ◌==◌, string_eq, if◌then◌else◌,
}
use mai_bot_trpg_plugin.Prelude.Chars.{lower}
use mai_bot_trpg_plugin.Storage.Defs.{Storage}
use mai_bot_trpg_plugin.Storage.SlotDefs.{SlotReply, save_to_slot, load_from_slot, delete_slot}
use mai_bot_trpg_plugin.Prelude.Numbers.{parse_digits}
use mai_bot_trpg_plugin.Commands.Defs.{
  Caller, Settings, Reply, slot_reply, silent, failed, is_admin,
}

abbrev answer_slot : Storage × SlotReply → Storage × Reply
answer_slot (st, reply) = (st, slot_reply reply)

-- The number of the second word; without it there is none.
unfoldable pub slot_number : List String → Option ℕ
unfolding parse_digits
slot_number [] = none
slot_number (w ∷ ws) = parse_digits w

-- The branches that take a slot; the number 0 counts as none.
unfoldable pub slot_action : Caller → Settings → String → Option ℕ → Storage → Storage × Reply
unfolding save_to_slot load_from_slot delete_slot is_admin
slot_action c settings action none st = (st, failed "格式错误")
slot_action c settings action (some zero) st = (st, failed "格式错误")
slot_action c settings action (some (suc n)) st =
    if action == "save"
    then answer_slot (save_to_slot c.stream_id (suc n) c.stamp st)
    else if action == "load"
    then answer_slot (load_from_slot c.stream_id (suc n) c.now st)
    else if action == "delete"
    then if is_admin c.user_id settings
      then answer_slot (delete_slot c.stream_id (suc n) st)
      else (st, failed "权限不足")
    else (st, failed "格式错误")

-- `parts` is `args.split()`.
unfoldable pub slot : Caller → Settings → List String → Storage → Storage × Reply
unfolding lower slot_number slot_action
slot c settings [] st = (st, silent)
slot c settings (action ∷ rest) st =
    if lower action == "list"
    then (st, silent)
    else slot_action c settings (lower action) (slot_number rest) st
