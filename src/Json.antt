-- ===== src/Json.antt =====
-- JSON values, as `json.dump` writes and `json.load` reads them, and the ways in which the program's
-- `to_dict` and `from_dict` methods build and read them. A value of another type than the field's is
-- refused here where Python would store it.
use mai_bot_trpg_plugin.Prelude.{
  ℕ, String, ◌≡◌, refl, Bool, true, ◌&&◌, Option, none, some, List, [], ◌∷◌, ◌==◌, string_eq,
  contains, if◌then◌else◌, All,
}
use mai_bot_trpg_plugin.Prelude.Int.{ℤ, pos, negsuc}
use mai_bot_trpg_plugin.Prelude.Dict.{Dict}

mutual
  pub data Value : Type 0 where
    null : Value
    bool : Bool → Value
    num : ℤ → Value
    text : String → Value
    arr : Items → Value
    obj : Fields → Value

  pub data Items : Type 0 where
    nil : Items
    cons : Value → Items → Items

  pub data Fields : Type 0 where
    end : Fields
    member : String → Value → Fields → Fields

infixl 5 ◌>>=◌
abbrev pub ◌>>=◌ {ℓ κ} : {A : Type ℓ} {B : Type κ} → Option A → (A → Option B) → Option B
none >>= f = none
some a >>= f = f a

-- `data.get(key)`
unfoldable pub get : String → Fields → Option Value
get key end = none
get key (member k v rest) = if k == key then some v else get key rest

-- `data[key] = value`
unfoldable pub set_field : String → Value → Fields → Fields
set_field key v end = member key v end
set_field key v (member k w rest) =
    if k == key then member k v rest else member k w (set_field key v rest)

-- `cls(**data)` refuses a key that is no field.
unfoldable pub only : List String → Fields → Bool
only names end = true
only names (member k v rest) = contains k names && only names rest

abbrev pub as_obj : Value → Option Fields
as_obj (obj fs) = some fs
as_obj _ = none

abbrev pub as_arr : Value → Option Items
as_arr (arr xs) = some xs
as_arr _ = none

abbrev pub as_text : Value → Option String
as_text (text s) = some s
as_text _ = none

abbrev pub as_num : Value → Option ℤ
as_num (num n) = some n
as_num _ = none

abbrev pub as_bool : Value → Option Bool
as_bool (bool b) = some b
as_bool _ = none

abbrev pub nat_of : ℤ → Option ℕ
nat_of (pos n) = some n
nat_of (negsuc n) = none

-- Times and the indices of the story context.
abbrev pub as_nat : Value → Option ℕ
as_nat (num n) = nat_of n
as_nat _ = none

abbrev pub as_any : Value → Option Value
as_any v = some v

-- `None` or a text.
abbrev pub as_maybe : Value → Option (Option String)
as_maybe null = some none
as_maybe (text s) = some (some s)
as_maybe _ = none

abbrev pub maybe_text : Option String → Value
maybe_text none = null
maybe_text (some s) = text s

module _ {A : Type 0} where
  -- `data.get(key, default)`
  unfoldable pub field_or : (Value → Option A) → String → A → Fields → Option A
  unfolding get
  field_or read key default fs = elim (get key fs) [ none ↦ some default | some v ↦ read v ]

  -- `data[key]`
  unfoldable pub required : (Value → Option A) → String → Fields → Option A
  unfolding get
  required read key fs = elim (get key fs) [ none ↦ none | some v ↦ read v ]

  -- `[f(x) for x in xs]`
  unfoldable pub to_items : (A → Value) → List A → Items
  to_items f [] = nil
  to_items f (x ∷ xs) = cons (f x) (to_items f xs)

  unfoldable pub of_items : (Value → Option A) → Items → Option (List A)
  of_items f nil = some []
  of_items f (cons v vs) = do x ← f v; xs ← of_items f vs; some (x ∷ xs)

  unfoldable pub as_list : (Value → Option A) → Value → Option (List A)
  unfolding of_items
  as_list f v = do xs ← as_arr v; of_items f xs

  -- `{k: f(v) for k, v in d.items()}`. The keys of a written dictionary are distinct.
  unfoldable pub to_fields : (A → Value) → Dict String A → Fields
  to_fields f [] = end
  to_fields f ((k, x) ∷ d) = member k (f x) (to_fields f d)

  unfoldable pub of_fields : (Value → Option A) → Fields → Option (Dict String A)
  of_fields f end = some []
  of_fields f (member k v vs) = do x ← f v; d ← of_fields f vs; some ((k, x) ∷ d)

  unfoldable pub as_dict : (Value → Option A) → Value → Option (Dict String A)
  unfolding of_fields
  as_dict f v = do fs ← as_obj v; of_fields f fs

module _ {A : Type 0} (write : A → Value) (read : Value → Option A) (P : A → Type 0) where
  pub of_items-to_items :
      ((a : A) → P a → read (write a) ≡ some a)
      → (xs : List A) → All P xs
      → of_items read (to_items write xs) ≡ some xs
  unfolding of_items to_items
  of_items-to_items back [] h = refl
  of_items-to_items back (x ∷ xs) h = rw (back x h.0, of_items-to_items back xs h.1)

pub of_items-text : (xs : List String) → of_items as_text (to_items text xs) ≡ some xs
unfolding of_items to_items
of_items-text [] = refl
of_items-text (x ∷ xs) = rw (of_items-text xs)
