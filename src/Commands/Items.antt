-- ===== src/Commands/Items.antt =====
-- `_inventory` of components/commands.py, split at the character and at the reading of the words.
use mai_bot_trpg_plugin.Prelude.{
  String, ◌≡◌, refl, ◌||◌, Option, none, some, List, [], ◌∷◌, ◌==◌, string_eq, if◌then◌else◌,
}
use mai_bot_trpg_plugin.Prelude.Chars.{lower}
use mai_bot_trpg_plugin.Prelude.Int.{ℤ, pos}
use mai_bot_trpg_plugin.Player.Item.{InventoryItem}
use mai_bot_trpg_plugin.Player.Defs.{Player, add_item, remove_item, get_item}
use mai_bot_trpg_plugin.Storage.Defs.{Storage, get_player}
use mai_bot_trpg_plugin.Prelude.Numbers.{parse_digits}
use mai_bot_trpg_plugin.Commands.Defs.{Caller, Reply, silent, failed}
use mai_bot_trpg_plugin.Commands.Words.{split_last, rstrip, join_words}
use mai_bot_trpg_plugin.Commands.Character.{keep}

-- The name and the quantity: a number behind the last space is the quantity, which is 1 without it.
unfoldable pub item_of : String → String × ℤ
unfolding split_last parse_digits rstrip
item_of item_args = elim (split_last item_args) [
  | none ↦ (item_args, pos 1)
  | some (name, tail) ↦ elim (parse_digits tail) [
    | none ↦ (item_args, pos 1)
    | some n ↦ (rstrip name, pos n)
  ]
]

-- The end of the branches `rm` and `use`.
unfoldable pub finish_removal : Player × Option InventoryItem → Storage → Storage × Reply
unfolding keep
finish_removal (player, none) st = (st, failed "物品不存在")
finish_removal (player, some item) st = keep player silent st

-- The branch `use`, from the item that was looked up.
unfoldable pub use_with :
    Caller → String → Option InventoryItem → Player → Storage → Storage × Reply
unfolding remove_item keep
use_with c name none player st = (st, failed "物品不存在")
use_with c name (some item) player st = keep (remove_item name (pos 1) c.now player).0 silent st

unfoldable pub item_action : Caller → String → String → ℤ → Player → Storage → Storage × Reply
unfolding add_item remove_item get_item keep finish_removal use_with
item_action c action name quantity player st =
    if name == ""
    then (st, failed "格式错误")
    else if action == "add"
    then keep (add_item name quantity c.now player).0 silent st
    else if action == "rm" || action == "remove"
    then finish_removal (remove_item name quantity c.now player) st
    else if action == "use"
    then use_with c name (get_item name player) player st
    else (st, failed "格式错误")

-- `parts` is `args.split(maxsplit=2)`.
unfoldable pub inventory_with : Caller → List String → Option Player → Storage → Storage × Reply
unfolding lower join_words item_of item_action
inventory_with c parts none st = (st, failed "未加入")
inventory_with c [] (some player) st = (st, silent)
inventory_with c (action ∷ rest) (some player) st =
    let (name, quantity) = item_of (join_words rest) in
    item_action c (lower action) name quantity player st

unfoldable pub inventory : Caller → List String → Storage → Storage × Reply
unfolding get_player inventory_with
inventory c parts st = inventory_with c parts (get_player c.stream_id c.user_id st) st

item_of_example : item_of "healing potion 12" ≡ ("healing potion", pos 12)
unfolding item_of
item_of_example = refl
