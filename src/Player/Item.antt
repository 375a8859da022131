-- ===== src/Player/Item.antt =====
-- class InventoryItem of models/player.py, and the inventory as a list of items.
use mai_bot_trpg_plugin.Prelude.{
  String, Option, none, some, List, [], ◌∷◌, ◌==◌, string_eq, if◌then◌else◌,
}
use mai_bot_trpg_plugin.Prelude.Int.{ℤ, ◌+ℤ◌, ◌-ℤ◌, leb_ℤ}
use mai_bot_trpg_plugin.Json.{Value}

pub record InventoryItem : Type 0 where
  pub name : String
  pub quantity : ℤ
  pub description : String
  pub item_type : String
  pub properties : Value

-- The loop of `add_item` over the items: the first of that name grows.
unfoldable pub grow : String → ℤ → List InventoryItem → Option (List InventoryItem × InventoryItem)
grow name quantity [] = none
grow name quantity (item ∷ rest) =
    let found = record item { quantity = item.quantity +ℤ quantity } in
    if item.name == name
    then some (found ∷ rest, found)
    else elim (grow name quantity rest) [ none ↦ none | some (l, i) ↦ some (item ∷ l, i) ]

-- The loop of `remove_item`. `list.remove` takes the first equal item, and the items before the one
-- found have other names.
unfoldable pub shrink :
    String → ℤ → List InventoryItem → Option (List InventoryItem × InventoryItem)
shrink name quantity [] = none
shrink name quantity (item ∷ rest) =
    let less = record item { quantity = item.quantity -ℤ quantity } in
    if item.name == name
    then (if leb_ℤ item.quantity quantity then some (rest, item) else some (less ∷ rest, less))
    else elim (shrink name quantity rest) [ none ↦ none | some (l, i) ↦ some (item ∷ l, i) ]

-- The loop of `get_item`.
unfoldable pub find_item : String → List InventoryItem → Option InventoryItem
find_item name [] = none
find_item name (item ∷ rest) = if item.name == name then some item else find_item name rest
