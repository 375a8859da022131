-- ===== src/Player/Tests.antt =====
-- Runs of models/player.py on concrete characters.
use mai_bot_trpg_plugin.Prelude.{
  ℕ, true, ◌≢◌, ◌≡◌, refl, ◌↔◌, false, none, some, [], ◌∷◌, arith, if◌then◌else◌, List, String,
  ◌==◌, string_eq,
}
use mai_bot_trpg_plugin.Prelude.Int.{ℤ, pos, negsuc, ◌+ℤ◌, ◌-ℤ◌, ◌≤ℤ◌, leb_ℤ}
use mai_bot_trpg_plugin.Prelude.Totals.{sum}
use mai_bot_trpg_plugin.Prelude.Dict.{lookup_or, has_key}
use mai_bot_trpg_plugin.Json.{obj, end, ◌>>=◌}
use mai_bot_trpg_plugin.Player.Codec.{player_to_dict, player_from_dict, player_from_dict-to_dict}
use mai_bot_trpg_plugin.Player.Attributes.{
  get_attribute, set_attribute, resolve, Attribute, strength, dexterity, constitution, intelligence,
  wisdom, charisma, PlayerAttributes, read, attribute_eq,
}
use mai_bot_trpg_plugin.Player.Access.{get_attribute-set_attribute}
use mai_bot_trpg_plugin.Player.Item.{find_item}
use mai_bot_trpg_plugin.Player.Defs.{
  Player, modify_hp, new_item, add_item, remove_item, get_item, allocated, refused, type_error,
  above_max, allocate_to, allocate_point, reset_points, paid_back, reset_error, calls_fail,
  allocated_to,
}
use mai_bot_trpg_plugin.Player.Points.{
  IsBuilt, Call, allocate, reset, lock, run_calls, run_calls-IsBuilt, reset_points_restores,
  allocate_to_effect,
}
use mai_bot_trpg_plugin.Player.Vitals.{modify_hp_bounds}
use mai_bot_trpg_plugin.Player.Inventory.{
  held, HasDistinctNames, add_item-held, remove_item-held, remove_item-none,
}

abbrev pub base_eight : PlayerAttributes
base_eight = record {
  str_value = pos 8;
  dex_value = pos 8;
  con_value = pos 8;
  int_value = pos 8;
  wis_value = pos 8;
  cha_value = pos 8;
  overwritten = [];
}

abbrev pub hero : Player
hero = record {
  user_id = "u1";
  stream_id = "g1";
  character_name = "Ada";
  attributes = base_eight;
  hp_current = pos 20;
  hp_max = pos 20;
  mp_current = pos 10;
  mp_max = pos 10;
  level = pos 1;
  experience = pos 0;
  inventory = new_item "rope" (pos 2) ∷ new_item "torch" (pos 5) ∷ [];
  skills = [];
  notes = "";
  created_at = 0;
  updated_at = 0;
  custom_data = obj end;
  free_points = pos 30;
  points_allocated = [];
  character_locked = false;
}

abbrev eight : Attribute → ℤ
eight a = pos 8

hero-IsBuilt : IsBuilt eight (pos 30) hero
unfolding read allocated_to lookup_or sum ◌+ℤ◌
hero-IsBuilt = record {
  based = elim [
    | strength ↦ refl
    | dexterity ↦ refl
    | constitution ↦ refl
    | intelligence ↦ refl
    | wisdom ↦ refl
    | charisma ↦ refl
  ];
  paid = refl;
  solvent = omega arith;
  nonneg = λ a. omega arith;
  distinct = tt;
}

abbrev calls : List (ℕ × Call)
calls =
    (1, allocate "力量" (pos 4) (pos 3) (pos 18))
    ∷ (2, allocate "WIS" (pos 40) (pos 3) (pos 18))
    ∷ (3, lock)
    ∷ (4, reset)
    ∷ []

run_calls-IsBuilt_example : IsBuilt eight (pos 30) (run_calls calls hero)
run_calls-IsBuilt_example = run_calls-IsBuilt calls hero hero-IsBuilt

hero_callable : calls_fail hero.attributes ≡ false
unfolding calls_fail
hero_callable = refl

reset_points_restores_example :
    let (q, ended) = reset_points 5 hero in
    (ended ≡ paid_back (sum hero.points_allocated))
    × (q.free_points ≡ pos 30)
    × (q.points_allocated ≡ [])
    × ((a : Attribute) → read a q.attributes ≡ eight a)
reset_points_restores_example = reset_points_restores 5 hero refl hero_callable hero-IsBuilt

modify_hp_bounds_example :
    let (q, old, new) = modify_hp (negsuc 24) 1 hero in
    (old ≡ hero.hp_current)
    × (new ≡ q.hp_current)
    × (pos 0 ≤ℤ new)
    × (new ≤ℤ hero.hp_max)
    × (pos 0 ≤ℤ hero.hp_current +ℤ negsuc 24
        → hero.hp_current +ℤ negsuc 24 ≤ℤ hero.hp_max
        → new ≡ hero.hp_current +ℤ negsuc 24)
modify_hp_bounds_example = modify_hp_bounds (negsuc 24) 1 hero (omega arith)

hero-HasDistinctNames : HasDistinctNames hero.inventory
unfolding find_item
hero-HasDistinctNames = (refl, (refl, tt))

add_item-held_example :
    ((m : String)
      → held m (add_item "rope" (pos 3) 1 hero).0
        ≡ (if "rope" == m then held m hero +ℤ pos 3 else held m hero))
    × (HasDistinctNames hero.inventory
        → HasDistinctNames (add_item "rope" (pos 3) 1 hero).0.inventory)
add_item-held_example = add_item-held "rope" (pos 3) 1 hero

remove_item-held_example :
    ((m : String)
      → held m (remove_item "rope" (pos 2) 1 hero).0 ≡ (
          if "rope" == m
          then (if leb_ℤ (held m hero) (pos 2) then pos 0 else held m hero -ℤ pos 2)
          else held m hero))
    × HasDistinctNames (remove_item "rope" (pos 2) 1 hero).0.inventory
remove_item-held_example =
    remove_item-held "rope" (pos 2) 1 hero (omega arith) hero-HasDistinctNames

remove_item-none_example :
    (((remove_item "axe" (pos 1) 1 hero).1 ≡ none) ↔ (get_item "axe" hero ≡ none))
    × (get_item "axe" hero ≡ none → (remove_item "axe" (pos 1) 1 hero).0 ≡ hero)
remove_item-none_example = remove_item-none "axe" (pos 1) 1 hero

-- A name of a method is found, and the addition to it fails.
allocate_method : (allocate_point "to_dict" (pos 1) (pos 3) (pos 18) 1 hero).1 ≡ type_error
unfolding allocate_point
allocate_method = refl

allocate_alias :
    (allocate_point "DEX" (pos 4) (pos 3) (pos 18) 1 hero).1 ≡ allocated (pos 8) (pos 12) (pos 26)
unfolding allocate_point read ◌+ℤ◌ ◌-ℤ◌
allocate_alias = refl

allocate_too_many :
    (allocate_point "dexterity" (pos 11) (pos 3) (pos 18) 1 hero).1
    ≡ refused (above_max (pos 18) (pos 8))
unfolding allocate_point read ◌+ℤ◌ ◌-ℤ◌
allocate_too_many = refl

allocated_dexterity :
    (allocate_to dexterity (pos 4) (pos 3) (pos 18) 1 hero).1 ≡ allocated (pos 8) (pos 12) (pos 26)
unfolding allocate_to read ◌+ℤ◌ ◌-ℤ◌
allocated_dexterity = refl

allocate_to_effect_example :
    let q = (allocate_to dexterity (pos 4) (pos 3) (pos 18) 1 hero).0 in
    (pos 8 ≡ read dexterity hero.attributes)
    × (pos 12 ≡ pos 8 +ℤ pos 4)
    × (pos 26 ≡ q.free_points)
    × (pos 3 ≤ℤ pos 12)
    × (pos 12 ≤ℤ pos 18)
    × ((b : Attribute)
        → read b q.attributes ≡ (if dexterity == b then pos 12 else read b hero.attributes))
allocate_to_effect_example =
    allocate_to_effect dexterity (pos 4) (pos 3) (pos 18) 1 hero allocated_dexterity

-- A character whose `get_attribute` was overwritten by a number.
abbrev mute_hero : Player
mute_hero = record hero {
  attributes = record base_eight { overwritten = ("get_attribute", pos 5) ∷ [] };
  points_allocated = (dexterity, pos 2) ∷ [];
}

mute_reset : reset_points 1 mute_hero ≡ (mute_hero, reset_error)
unfolding reset_points calls_fail
mute_reset = refl

mute_allocation : (allocate_point "dex" (pos 1) (pos 3) (pos 18) 1 mute_hero).1 ≡ type_error
unfolding allocate_point
mute_allocation = refl

player_from_dict-to_dict_example : (player_to_dict hero >>= player_from_dict 3) ≡ (
    if has_key "to_dict" hero.attributes.overwritten
    then none
    else some (record hero { attributes = record hero.attributes { overwritten = [] } }))
player_from_dict-to_dict_example = player_from_dict-to_dict 3 hero

get_attribute-set_attribute_example :
    (q : PlayerAttributes) × (set_attribute "DEX" (pos 15) base_eight ≡ some (q, true))
    × ((other : String)
        → (resolve other ≡ resolve "DEX" → get_attribute other q ≡ some (pos 15))
          × (resolve other ≢ resolve "DEX"
              → get_attribute other q ≡ get_attribute other base_eight))
unfolding has_key resolve
get_attribute-set_attribute_example =
    get_attribute-set_attribute "DEX" dexterity (pos 15) base_eight refl refl refl
