-- ===== src/Player/Codec.antt =====
-- `to_dict` and `from_dict` of models/player.py. `none` is an exception.
use mai_bot_trpg_plugin.Prelude.{
  ℕ, String, ◌≡◌, refl, true, false, Option, none, some, List, [], ◌∷◌, contains, string_eq,
  if◌then◌else◌, Bool-cases, inl, inr,
}
use mai_bot_trpg_plugin.Prelude.Int.{ℤ, pos}
use mai_bot_trpg_plugin.Prelude.Dict.{has_key, Dict, lookup}
use mai_bot_trpg_plugin.Json.{
  Value, num, text, bool, arr, obj, Fields, set_field, end, member, ◌>>=◌, get, only, as_obj,
  as_text, as_num, as_nat, as_bool, as_any, as_list, field_or, required, to_items, of_items,
  of_items-text,
}
use mai_bot_trpg_plugin.Player.Attributes.{
  Attribute, strength, dexterity, constitution, intelligence, wisdom, charisma, PlayerAttributes,
  attribute_name, field_names,
}
use mai_bot_trpg_plugin.Player.Item.{InventoryItem}
use mai_bot_trpg_plugin.Player.Defs.{Player}

-- InventoryItem.to_dict
unfoldable pub item_to_dict : InventoryItem → Value
item_to_dict item = obj (
    member "name" (text item.name) (
      member "quantity" (num item.quantity) (
        member "description" (text item.description)
          (member "item_type" (text item.item_type) (member "properties" item.properties end)))))

abbrev item_fields : List String
item_fields = "name" ∷ "quantity" ∷ "description" ∷ "item_type" ∷ "properties" ∷ []

-- InventoryItem.from_dict
unfoldable pub item_from_dict : Value → Option InventoryItem
unfolding only contains field_or required get
item_from_dict v = do
  fs ← as_obj v
  name ← required as_text "name" fs
  quantity ← field_or as_num "quantity" (pos 1) fs
  description ← field_or as_text "description" "" fs
  item_type ← field_or as_text "item_type" "misc" fs
  properties ← field_or as_any "properties" (obj end) fs
  if only item_fields fs
      then some (record {
        name = name;
        quantity = quantity;
        description = description;
        item_type = item_type;
        properties = properties;
      })
      else none

-- PlayerAttributes.to_dict, where the method has not been overwritten by a number.
unfoldable pub attributes_to_dict : PlayerAttributes → Option Value
unfolding contains
attributes_to_dict p =
    if has_key "to_dict" p.overwritten
    then none
    else some (
        obj (
          member "strength" (num p.str_value) (
            member "dexterity" (num p.dex_value) (
              member "constitution" (num p.con_value) (
                member "intelligence" (num p.int_value)
                  (member "wisdom" (num p.wis_value) (member "charisma" (num p.cha_value) end)))))))

abbrev attribute_fields : List String
attribute_fields =
    "strength" ∷ "dexterity" ∷ "constitution" ∷ "intelligence" ∷ "wisdom" ∷ "charisma" ∷ []

-- PlayerAttributes.from_dict
unfoldable pub attributes_from_dict : Value → Option PlayerAttributes
unfolding only contains field_or get
attributes_from_dict v = do
  fs ← as_obj v
  str_value ← field_or as_num "strength" (pos 10) fs
  dex_value ← field_or as_num "dexterity" (pos 10) fs
  con_value ← field_or as_num "constitution" (pos 10) fs
  int_value ← field_or as_num "intelligence" (pos 10) fs
  wis_value ← field_or as_num "wisdom" (pos 10) fs
  cha_value ← field_or as_num "charisma" (pos 10) fs
  if only attribute_fields fs
      then some (record {
        str_value = str_value;
        dex_value = dex_value;
        con_value = con_value;
        int_value = int_value;
        wis_value = wis_value;
        cha_value = cha_value;
        overwritten = [];
      })
      else none

-- The table of allocated points, under the standard names.
unfoldable pub points_to_fields : Dict Attribute ℤ → Fields
unfolding attribute_name
points_to_fields [] = end
points_to_fields ((a, v) ∷ d) = member (attribute_name a) (num v) (points_to_fields d)

unfoldable pub points_of_fields : Fields → Option (Dict Attribute ℤ)
unfolding lookup
points_of_fields end = some []
points_of_fields (member k v rest) = do
  a ← lookup k field_names
  n ← as_num v
  d ← points_of_fields rest
  some ((a, n) ∷ d)

abbrev as_points : Value → Option (Dict Attribute ℤ)
as_points v = do fs ← as_obj v; points_of_fields fs

-- Player.to_dict
unfoldable pub player_to_dict : Player → Option Value
unfolding attributes_to_dict item_to_dict to_items points_to_fields
player_to_dict p = do
  attributes ← attributes_to_dict p.attributes
  some (
      obj (
        member "user_id" (text p.user_id) (
          member "stream_id" (text p.stream_id) (
            member "character_name" (text p.character_name) (
              member "attributes" attributes (
                member "hp_current" (num p.hp_current) (
                  member "hp_max" (num p.hp_max) (
                    member "mp_current" (num p.mp_current) (
                      member "mp_max" (num p.mp_max) (
                        member "level" (num p.level) (
                          member "experience" (num p.experience) (
                            member "inventory" (arr (to_items item_to_dict p.inventory)) (
                              member "skills" (arr (to_items text p.skills)) (
                                member "notes" (text p.notes) (
                                  member "created_at" (num (pos p.created_at)) (
                                    member "updated_at" (num (pos p.updated_at)) (
                                      member "custom_data" p.custom_data (
                                        member "free_points" (num p.free_points) (
                                          member "points_allocated"
                                            (obj (points_to_fields p.points_allocated))
                                            (member "character_locked" (bool p.character_locked)
                                              end))))))))))))))))))))

-- Player.from_dict; `now` is the default of the times.
unfoldable pub player_from_dict : ℕ → Value → Option Player
unfolding attributes_from_dict item_from_dict points_of_fields field_or required get as_list
player_from_dict now v = do
  fs ← as_obj v
  attributes ← attributes_from_dict (← field_or as_any "attributes" (obj end) fs)
  inventory ← field_or (as_list item_from_dict) "inventory" [] fs
  user_id ← required as_text "user_id" fs
  stream_id ← required as_text "stream_id" fs
  character_name ← field_or as_text "character_name" "无名冒险者" fs
  hp_current ← field_or as_num "hp_current" (pos 20) fs
  hp_max ← field_or as_num "hp_max" (pos 20) fs
  mp_current ← field_or as_num "mp_current" (pos 10) fs
  mp_max ← field_or as_num "mp_max" (pos 10) fs
  level ← field_or as_num "level" (pos 1) fs
  experience ← field_or as_num "experience" (pos 0) fs
  skills ← field_or (as_list as_text) "skills" [] fs
  notes ← field_or as_text "notes" "" fs
  created_at ← field_or as_nat "created_at" now fs
  updated_at ← field_or as_nat "updated_at" now fs
  custom_data ← field_or as_any "custom_data" (obj end) fs
  free_points ← field_or as_num "free_points" (pos 30) fs
  points_allocated ← field_or as_points "points_allocated" [] fs
  character_locked ← field_or as_bool "character_locked" false fs
  some (record {
    user_id = user_id;
    stream_id = stream_id;
    character_name = character_name;
    attributes = attributes;
    hp_current = hp_current;
    hp_max = hp_max;
    mp_current = mp_current;
    mp_max = mp_max;
    level = level;
    experience = experience;
    inventory = inventory;
    skills = skills;
    notes = notes;
    created_at = created_at;
    updated_at = updated_at;
    custom_data = custom_data;
    free_points = free_points;
    points_allocated = points_allocated;
    character_locked = character_locked;
  })

item_back : (item : InventoryItem) → item_from_dict (item_to_dict item) ≡ some item
unfolding item_from_dict item_to_dict
item_back item = refl

items_back :
    (items : List InventoryItem)
    → of_items item_from_dict (to_items item_to_dict items) ≡ some items
unfolding of_items to_items
items_back [] = refl
items_back (x ∷ xs) = rw (item_back x, items_back xs)

points_back : (d : Dict Attribute ℤ) → points_of_fields (points_to_fields d) ≡ some d
unfolding points_of_fields points_to_fields
points_back [] = refl
points_back ((strength, v) ∷ d) = rw (points_back d)
points_back ((dexterity, v) ∷ d) = rw (points_back d)
points_back ((constitution, v) ∷ d) = rw (points_back d)
points_back ((intelligence, v) ∷ d) = rw (points_back d)
points_back ((wisdom, v) ∷ d) = rw (points_back d)
points_back ((charisma, v) ∷ d) = rw (points_back d)

-- Writing fails exactly when `to_dict` of the attributes has been overwritten. Otherwise the
-- character that is read back is the same, but for the methods that were overwritten.
pub player_from_dict-to_dict :
    (now : ℕ) (p : Player)
    → (player_to_dict p >>= player_from_dict now) ≡ (
        if has_key "to_dict" p.attributes.overwritten
        then none
        else some (record p { attributes = record p.attributes { overwritten = [] } }))
unfolding player_to_dict player_from_dict
player_from_dict-to_dict now p = elim (Bool-cases (has_key "to_dict" p.attributes.overwritten)) [
  | inl bad ↦ rw bad
  | inr good ↦ rw (good, items_back, of_items-text, points_back)
]

-- The key that `load_from_slot` sets before it reads a character.
unfoldable pub retarget : String → Value → Option Value
unfolding set_field
retarget stream_id v = do fs ← as_obj v; some (obj (set_field "stream_id" (text stream_id) fs))

-- A character that is written and read back after that key is set differs in the stream alone.
pub player_from_dict-retarget :
    (now : ℕ) (stream_id : String) (p : Player)
    → (player_to_dict p >>= retarget stream_id >>= player_from_dict now) ≡ (
        if has_key "to_dict" p.attributes.overwritten
        then none
        else some (record p {
          stream_id = stream_id;
          attributes = record p.attributes { overwritten = [] };
        }))
unfolding player_to_dict player_from_dict retarget
player_from_dict-retarget now stream_id p =
    elim (Bool-cases (has_key "to_dict" p.attributes.overwritten)) [
      | inl bad ↦ rw bad
      | inr good ↦ rw (good, items_back, of_items-text, points_back)
    ]

-- The character that a slot gives back to a stream.
abbrev pub reborn : String → Player → Player
reborn stream_id p = record p {
  stream_id = stream_id;
  attributes = record p.attributes { overwritten = [] };
}

-- Writing fails where `to_dict` of the attributes has been overwritten.
pub player_to_dict_overwritten :
    (p : Player) → has_key "to_dict" p.attributes.overwritten ≡ true → player_to_dict p ≡ none
unfolding player_to_dict
player_to_dict_overwritten p bad = rw bad

pub retarget_written :
    (now : ℕ) (stream_id : String) (p : Player) (v : Value)
    → player_to_dict p ≡ some v
    → (retarget stream_id v >>= player_from_dict now) ≡ some (reborn stream_id p)
retarget_written now stream_id p v h =
    let back = player_from_dict-retarget now stream_id p in
    elim (Bool-cases (has_key "to_dict" p.attributes.overwritten)) [
      | inl bad ↦ cc (player_to_dict_overwritten p bad)
      | inr good ↦ rw (h, good) at back
    ]
