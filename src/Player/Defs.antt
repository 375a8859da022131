-- ===== src/Player/Defs.antt =====
-- class Player of models/player.py: the character and its methods. `now` is what `time.time()`
-- gives, in clock ticks; times are stored and never computed with. A message is a constructor with
-- the values that it prints.
use mai_bot_trpg_plugin.Prelude.{
  ℕ, String, Bool, true, false, ◌&&◌, ◌||◌, Option, none, some, List, [], ◌∷◌, ◌++◌, string_eq,
  if◌then◌else◌,
}
use mai_bot_trpg_plugin.Prelude.Int.{ℤ, pos, ◌+ℤ◌, ◌-ℤ◌, ltb_ℤ, max_ℤ, min_ℤ}
use mai_bot_trpg_plugin.Prelude.Dict.{Dict, lookup_or, insert, has_key}
use mai_bot_trpg_plugin.Json.{Value, obj, end}
use mai_bot_trpg_plugin.Player.Attributes.{
  Attribute, attribute_eq, PlayerAttributes, Reference, field, method, missing, resolve, read,
  write,
}
use mai_bot_trpg_plugin.Player.Item.{InventoryItem, grow, shrink, find_item}

pub record Player : Type 0 where
  pub user_id : String
  pub stream_id : String
  pub character_name : String
  pub attributes : PlayerAttributes
  pub hp_current : ℤ
  pub hp_max : ℤ
  pub mp_current : ℤ
  pub mp_max : ℤ
  pub level : ℤ
  pub experience : ℤ
  pub inventory : List InventoryItem
  pub skills : List String
  pub notes : String
  pub created_at : ℕ
  pub updated_at : ℕ
  pub custom_data : Value
  pub free_points : ℤ
  pub points_allocated : Dict Attribute ℤ
  pub character_locked : Bool

unfoldable pub modify_hp : ℤ → ℕ → Player → Player × ℤ × ℤ
unfolding max_ℤ min_ℤ
modify_hp amount now p =
    let new_hp = max_ℤ (pos 0) (min_ℤ p.hp_max (p.hp_current +ℤ amount)) in
    (record p { hp_current = new_hp; updated_at = now }, p.hp_current, new_hp)

unfoldable pub modify_mp : ℤ → ℕ → Player → Player × ℤ × ℤ
unfolding max_ℤ min_ℤ
modify_mp amount now p =
    let new_mp = max_ℤ (pos 0) (min_ℤ p.mp_max (p.mp_current +ℤ amount)) in
    (record p { mp_current = new_mp; updated_at = now }, p.mp_current, new_mp)

unfoldable pub is_alive : Player → Bool
is_alive p = ltb_ℤ (pos 0) p.hp_current

-- `InventoryItem(name=name, quantity=quantity)`, with the defaults of the class.
abbrev pub new_item : String → ℤ → InventoryItem
new_item name quantity = record {
  name = name;
  quantity = quantity;
  description = "";
  item_type = "misc";
  properties = obj end;
}

-- The callers pass no keyword arguments.
unfoldable pub add_item : String → ℤ → ℕ → Player → Player × InventoryItem
unfolding grow
add_item name quantity now p = elim (grow name quantity p.inventory) [
  | some (items, item) ↦ (record p { inventory = items; updated_at = now }, item)
  | none ↦ (
    record p { inventory = p.inventory ++ new_item name quantity ∷ []; updated_at = now },
    new_item name quantity,
  )
]

unfoldable pub remove_item : String → ℤ → ℕ → Player → Player × Option InventoryItem
unfolding shrink
remove_item name quantity now p = elim (shrink name quantity p.inventory) [
  | some (items, item) ↦ (record p { inventory = items; updated_at = now }, some item)
  | none ↦ (p, none)
]

unfoldable pub get_item : String → Player → Option InventoryItem
unfolding find_item
get_item name p = find_item name p.inventory

pub data Refusal : Type 0 where
  locked unknown_attribute : Refusal
  not_enough_points : (left wanted : ℤ) → Refusal
  above_max below_min : (bound current : ℤ) → Refusal
  not_allocated : (allocated : ℤ) → Refusal

-- How `allocate_point` ends. `type_error` is the exception of adding a number to a bound method, or of
-- calling a method that was overwritten by a number. The table of allocations has the six attributes as
-- keys: points for the name of an overwritten method, which the code would enter too, are a
-- `type_error` here.
pub data Allocation : Type 0 where
  allocated : (current new left : ℤ) → Allocation
  refused : Refusal → Allocation
  type_error : Allocation

unfoldable pub allocated_to : Attribute → Player → ℤ
unfolding lookup_or
allocated_to a p = lookup_or a (pos 0) p.points_allocated

-- The changes at the end of `allocate_point`.
unfoldable pub apply_points : Attribute → ℤ → ℕ → Player → Player
unfolding insert allocated_to
apply_points a points now p = record p {
  attributes = write a (read a p.attributes +ℤ points) p.attributes;
  free_points = p.free_points -ℤ points;
  points_allocated = insert a (allocated_to a p +ℤ points) p.points_allocated;
  updated_at = now;
}

-- `allocate_point` from the test of the points on, at one of the six attributes.
unfoldable pub allocate_to : Attribute → ℤ → ℤ → ℤ → ℕ → Player → Player × Allocation
unfolding has_key apply_points
allocate_to a points lo hi now p =
    let current = read a p.attributes in
    let new_value = current +ℤ points in
    if ltb_ℤ (pos 0) points && ltb_ℤ p.free_points points
    then (p, refused (not_enough_points p.free_points points))
    else if has_key "get_attribute" p.attributes.overwritten
    then (p, type_error)
    else if ltb_ℤ hi new_value
    then (p, refused (above_max hi current))
    else if ltb_ℤ new_value lo
    then (p, refused (below_min lo current))
    else if ltb_ℤ points (pos 0) && ltb_ℤ (allocated_to a p +ℤ points) (pos 0)
    then (p, refused (not_allocated (allocated_to a p)))
    else if has_key "set_attribute" p.attributes.overwritten
    then (p, type_error)
    else (apply_points a points now p, allocated current new_value (p.free_points -ℤ points))

-- The branches on what the name stands for.
unfoldable pub allocate_by : Reference → ℤ → ℤ → ℤ → ℕ → Player → Player × Allocation
unfolding allocate_to
allocate_by (field a) points lo hi now p = allocate_to a points lo hi now p
allocate_by (method m) points lo hi now p =
    if ltb_ℤ (pos 0) points && ltb_ℤ p.free_points points
    then (p, refused (not_enough_points p.free_points points))
    else (p, type_error)
allocate_by missing points lo hi now p = (p, refused unknown_attribute)

unfoldable pub allocate_point : String → ℤ → ℤ → ℤ → ℕ → Player → Player × Allocation
unfolding resolve allocate_by
allocate_point name points lo hi now p =
    if p.character_locked
    then (p, refused locked)
    else allocate_by (resolve name) points lo hi now p

unfoldable pub lock_character : ℕ → Player → Player × Bool
lock_character now p =
    if p.character_locked
    then (p, false)
    else (record p { character_locked = true; updated_at = now }, true)

unfoldable pub unlock_character : ℕ → Player → Player × Bool
unlock_character now p =
    if p.character_locked
    then (record p { character_locked = false; updated_at = now }, true)
    else (p, false)

-- The loop of `reset_points` where the two methods can be called: each allocation is taken back, and
-- they are summed.
unfoldable pub take_back : Dict Attribute ℤ → PlayerAttributes → ℤ → PlayerAttributes × ℤ
take_back [] attributes total = (attributes, total)
take_back ((a, points) ∷ rest) attributes total =
    take_back rest (write a (read a attributes -ℤ points) attributes) (total +ℤ points)

-- One of the methods that the loop calls was overwritten. The loop itself overwrites none: it raises
-- in its first round, before it has changed anything, or not at all.
unfoldable pub calls_fail : PlayerAttributes → Bool
unfolding has_key
calls_fail attributes =
    has_key "get_attribute" attributes.overwritten || has_key "set_attribute" attributes.overwritten

-- The loop; `none` is its TypeError.
unfoldable pub refund : Dict Attribute ℤ → PlayerAttributes → Option (PlayerAttributes × ℤ)
unfolding calls_fail take_back
refund [] attributes = some (attributes, pos 0)
refund ((a, points) ∷ rest) attributes =
    if calls_fail attributes then none else some (take_back ((a, points) ∷ rest) attributes (pos 0))

-- How `reset_points` ends: the points that are paid back, the refusal of a locked character, or the
-- exception.
pub data Reset : Type 0 where
  paid_back : ℤ → Reset
  reset_refused reset_error : Reset

-- `reset_points` behind its loop.
unfoldable pub after_refund : ℕ → Player → Option (PlayerAttributes × ℤ) → Player × Reset
after_refund now p none = (p, reset_error)
after_refund now p (some (attributes, total)) = (
  record p {
    attributes = attributes;
    free_points = p.free_points +ℤ total;
    points_allocated = [];
    updated_at = now;
  },
  paid_back total,
)

unfoldable pub reset_points : ℕ → Player → Player × Reset
unfolding refund after_refund
reset_points now p =
    if p.character_locked
    then (p, reset_refused)
    else after_refund now p (refund p.points_allocated p.attributes)
