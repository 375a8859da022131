-- ===== src/Player/Attributes.antt =====
-- class PlayerAttributes of models/player.py.
-- A name that is lowered is one of the aliases, one of the six fields, or a method of the class,
-- which `hasattr` finds too. The double-underscore names of every Python object are left out: they
-- count as missing here. A method that is overwritten by a number can no longer be called: `none` is the
-- TypeError of the call.
use mai_bot_trpg_plugin.Prelude.{
  ℕ, String, ◌≡◌, ◌↔◌, refl, Bool, true, false, Option, none, some, List, [], ◌∷◌, arith, Eq, ◌==◌,
  nat_beq, string_eq, contains, ◌||◌, if◌then◌else◌,
}
use mai_bot_trpg_plugin.Prelude.Int.{ℤ, pos, ◌-ℤ◌, half_ℤ}
use mai_bot_trpg_plugin.Prelude.Dict.{Dict, lookup, insert, has_key}
use mai_bot_trpg_plugin.Prelude.Chars.{lower}

pub data Attribute : Type 0 where
  strength dexterity constitution intelligence wisdom charisma : Attribute

abbrev index : Attribute → ℕ
index strength = 0
index dexterity = 1
index constitution = 2
index intelligence = 3
index wisdom = 4
index charisma = 5

unfoldable pub attribute_beq : Attribute → Attribute → Bool
attribute_beq a b = nat_beq (index a) (index b)

pub attribute_beq_iff : (a b : Attribute) → (attribute_beq a b ≡ true) ↔ (a ≡ b)
unfolding attribute_beq
attribute_beq_iff a b = ground arith

instance abbrev pub attribute_eq : Eq Attribute
attribute_eq = record { beq = attribute_beq; beq_iff = attribute_beq_iff }

-- `overwritten` holds the methods that `setattr` has replaced on this object, with their numbers.
pub record PlayerAttributes : Type 0 where
  pub str_value : ℤ
  pub dex_value : ℤ
  pub con_value : ℤ
  pub int_value : ℤ
  pub wis_value : ℤ
  pub cha_value : ℤ
  pub overwritten : Dict String ℤ

unfoldable pub attribute_name : Attribute → String
attribute_name strength = "strength"
attribute_name dexterity = "dexterity"
attribute_name constitution = "constitution"
attribute_name intelligence = "intelligence"
attribute_name wisdom = "wisdom"
attribute_name charisma = "charisma"

-- ATTR_ALIASES
abbrev pub attr_aliases : Dict String Attribute
attr_aliases =
    ("str", strength)
    ∷ ("力量", strength)
    ∷ ("dex", dexterity)
    ∷ ("敏捷", dexterity)
    ∷ ("con", constitution)
    ∷ ("体质", constitution)
    ∷ ("int", intelligence)
    ∷ ("智力", intelligence)
    ∷ ("wis", wisdom)
    ∷ ("感知", wisdom)
    ∷ ("cha", charisma)
    ∷ ("魅力", charisma)
    ∷ []

abbrev pub field_names : Dict String Attribute
field_names =
    ("strength", strength)
    ∷ ("dexterity", dexterity)
    ∷ ("constitution", constitution)
    ∷ ("intelligence", intelligence)
    ∷ ("wisdom", wisdom)
    ∷ ("charisma", charisma)
    ∷ []

abbrev pub method_names : List String
method_names =
    "to_dict" ∷ "from_dict" ∷ "get_modifier" ∷ "get_attribute" ∷ "set_attribute" ∷ "get_display"
    ∷ []

-- What a name stands for, on the object.
pub data Reference : Type 0 where
  field : Attribute → Reference
  method : String → Reference
  missing : Reference

unfoldable pub member : String → Reference
unfolding lookup contains
member key = elim (lookup key field_names) [
  | some a ↦ field a
  | none ↦ if contains key method_names then method key else missing
]

-- `lower`, then the alias or the name itself.
unfoldable pub resolve : String → Reference
unfolding lower lookup member
resolve name = elim (lookup (lower name) attr_aliases) [
  | some a ↦ field a
  | none ↦ member (lower name)
]

unfoldable pub read : Attribute → PlayerAttributes → ℤ
read strength p = p.str_value
read dexterity p = p.dex_value
read constitution p = p.con_value
read intelligence p = p.int_value
read wisdom p = p.wis_value
read charisma p = p.cha_value

unfoldable pub write : Attribute → ℤ → PlayerAttributes → PlayerAttributes
write strength v p = record p { str_value = v }
write dexterity v p = record p { dex_value = v }
write constitution v p = record p { con_value = v }
write intelligence v p = record p { int_value = v }
write wisdom v p = record p { wis_value = v }
write charisma v p = record p { cha_value = v }

-- `getattr(self, attr_name, 10)`, of what the name stands for. A method gives the number that is
-- written over it; `none` is a bound method, which is no number.
unfoldable pub get_value : Reference → PlayerAttributes → Option ℤ
unfolding read lookup
get_value (field a) p = some (read a p)
get_value (method m) p = lookup m p.overwritten
get_value missing p = some (pos 10)

unfoldable pub get_attribute : String → PlayerAttributes → Option ℤ
unfolding has_key resolve get_value
get_attribute name p =
    if has_key "get_attribute" p.overwritten then none else get_value (resolve name) p

-- The modifier of a value, rounded down.
unfoldable pub modifier : ℤ → ℤ
unfolding half_ℤ ◌-ℤ◌
modifier value = half_ℤ (value -ℤ pos 10)

unfoldable pub get_modifier : String → PlayerAttributes → Option ℤ
unfolding has_key get_attribute modifier
get_modifier name p =
    if has_key "get_modifier" p.overwritten
    then none
    else elim (get_attribute name p) [ none ↦ none | some v ↦ some (modifier v) ]

-- `setattr(self, attr_name, value)` where there is such a name.
unfoldable pub set_value : Reference → ℤ → PlayerAttributes → PlayerAttributes × Bool
unfolding write insert
set_value (field a) v p = (write a v p, true)
set_value (method m) v p = (record p { overwritten = insert m v p.overwritten }, true)
set_value missing v p = (p, false)

unfoldable pub set_attribute : String → ℤ → PlayerAttributes → Option (PlayerAttributes × Bool)
unfolding has_key resolve set_value
set_attribute name value p =
    if has_key "set_attribute" p.overwritten then none else some (set_value (resolve name) value p)

-- `get_display` raises: it was overwritten itself, or a method that it calls was.
unfoldable pub get_display_fails : PlayerAttributes → Bool
unfolding has_key
get_display_fails p =
    has_key "get_display" p.overwritten
    || has_key "get_modifier" p.overwritten
    || has_key "get_attribute" p.overwritten

pub read-write :
    (a b : Attribute) (v : ℤ) (p : PlayerAttributes)
    → read b (write a v p) ≡ (if a == b then v else read b p)
unfolding read write attribute_beq
read-write strength b v p = ground arith
read-write dexterity b v p = ground arith
read-write constitution b v p = ground arith
read-write intelligence b v p = ground arith
read-write wisdom b v p = ground arith
read-write charisma b v p = ground arith

pub overwritten-write :
    (a : Attribute) (v : ℤ) (p : PlayerAttributes) → (write a v p).overwritten ≡ p.overwritten
unfolding write
overwritten-write a v p = ground arith

-- The standard name of an attribute stands for that attribute.
pub resolve-attribute_name : (a : Attribute) → resolve (attribute_name a) ≡ field a
unfolding resolve attribute_name
resolve-attribute_name strength = refl
resolve-attribute_name dexterity = refl
resolve-attribute_name constitution = refl
resolve-attribute_name intelligence = refl
resolve-attribute_name wisdom = refl
resolve-attribute_name charisma = refl
