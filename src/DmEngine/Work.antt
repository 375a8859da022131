-- ===== src/DmEngine/Work.antt =====
-- The changes of one character by services/dm_engine.py: none of them raises or makes the character
-- impossible to write.
use mai_bot_trpg_plugin.Prelude.{
  ℕ, String, ◌≡◌, refl, ◌∙◌, ap, Bool, true, false, not, ◌&&◌, arith, Option, none, some, List, [],
  ◌∷◌, string_eq, Option-cases, inl, inr, ◌⊎◌, ◌≢◌, is_some,
}
use mai_bot_trpg_plugin.Prelude.Int.{ℤ, pos, ◌+ℤ◌}
use mai_bot_trpg_plugin.Prelude.Dict.{has_key, Dict}
use mai_bot_trpg_plugin.Player.Attributes.{
  Attribute, PlayerAttributes, Reference, get_attribute, set_attribute, resolve, field, method,
  missing, read, write, get_value, set_value, overwritten-write,
}
use mai_bot_trpg_plugin.Player.Item.{InventoryItem, grow, shrink}
use mai_bot_trpg_plugin.Player.Defs.{Player, modify_hp, modify_mp, add_item, remove_item}
use mai_bot_trpg_plugin.Storage.Defs.{Storage, get_player}
use mai_bot_trpg_plugin.DmEngine.Apply.{
  Worked, Note, attr_note, gain_note, loss_note, note_attr, change_hp, change_mp, note_first,
  change_attr, change_attrs, gain_items, lose_item, lose_items,
}

-- None of the methods that the changes and the writing of a character call is overwritten.
unfoldable pub is_intact : Dict String ℤ → Bool
unfolding has_key
is_intact overwritten =
    not (has_key "to_dict" overwritten)
    && not (has_key "get_attribute" overwritten)
    && not (has_key "set_attribute" overwritten)

-- A character that can be changed, and written to its file.
abbrev pub IsWritable : Player → Type 0
IsWritable p = is_intact p.attributes.overwritten ≡ true

-- What the calls of its methods need.
pub intact_parts :
    (d : Dict String ℤ)
    → is_intact d ≡ true
    → (has_key "to_dict" d ≡ false)
      × (has_key "get_attribute" d ≡ false)
      × (has_key "set_attribute" d ≡ false)
unfolding is_intact
intact_parts d h = (ground arith, ground arith, ground arith)

abbrev pub AllWritable : String → Storage → Type 0
AllWritable stream_id st =
    (w : String) (p : Player) → get_player stream_id w st ≡ some p → IsWritable p

-- Work that raises nothing and leaves a character that can be written.
abbrev pub IsSafe : (Player → Worked) → Type 0
IsSafe work = (p : Player) → IsWritable p → (is_some (work p).1 ≡ true) × IsWritable (work p).0

-- The hit points and the magic points, with their bounds.
abbrev pub vitals : Player → ℤ × ℤ × ℤ × ℤ
vitals p = (p.hp_current, p.hp_max, p.mp_current, p.mp_max)

abbrev pub AllValues {ℓ} : {V : Type ℓ} → (V → Type 0) → Dict String V → Type 0
AllValues P [] = Unit
AllValues P ((u, v) ∷ d) = P v × AllValues P d

pub all_values :
    {V : Type 0} (P : V → Type 0) → ((v : V) → P v) → (d : Dict String V) → AllValues P d
all_values P h [] = tt
all_values P h ((u, v) ∷ d) = (h v, all_values P h d)

pub change_hp-IsSafe : (now : ℕ) (delta : ℤ) → IsSafe (change_hp now delta)
unfolding change_hp modify_hp
change_hp-IsSafe now delta p h = (refl, h)

pub change_mp-IsSafe : (now : ℕ) (delta : ℤ) → IsSafe (change_mp now delta)
unfolding change_mp modify_mp
change_mp-IsSafe now delta p h = (refl, h)

pub note_first_lem :
    (note : Note) (w : Worked)
    → ((note_first note w).0 ≡ w.0) × (is_some (note_first note w).1 ≡ is_some w.1)
unfolding note_first
note_first_lem note (q, none) = (refl, refl)
note_first_lem note (q, some notes) = (refl, refl)

-- The name of an attribute, of which there is a number to add to.
abbrev pub IsNumeric : String → Type 0
IsNumeric name = (m : String) → resolve name ≢ method m

abbrev pub AllNumeric : Dict String ℤ → Type 0
AllNumeric [] = Unit
AllNumeric ((name, delta) ∷ rest) = IsNumeric name × AllNumeric rest

reference-cases :
    (r : Reference)
    → ((a : Attribute) × (r ≡ field a)) ⊎ ((m : String) × (r ≡ method m)) ⊎ (r ≡ missing)
reference-cases (field a) = inl (a, refl)
reference-cases (method m) = inr (inl (m, refl))
reference-cases missing = inr (inr refl)

-- A numeric attribute has a value, and setting it raises nothing and overwrites no method.
numeric_lem :
    (name : String) (a : PlayerAttributes)
    → IsNumeric name
    → is_intact a.overwritten ≡ true
    → (n : ℤ) × (get_attribute name a ≡ some n)
      × ((v : ℤ)
          → (r : PlayerAttributes × Bool) × (set_attribute name v a ≡ some r)
            × (r.0.overwritten ≡ a.overwritten))
numeric_lem name a h k =
    let (written, got, put) = intact_parts a.overwritten k in
    elim (reference-cases (resolve name)) [
      | inl (x, e) ↦ (
        read x a,
        unfold get_attribute in rw (got, e) (unfold get_value in refl),
        λ v. (
          (write x v a, true),
          unfold set_attribute in rw (put, e) (unfold set_value in refl),
          overwritten-write x v a,
        ),
      )
      | inr (inl (m, e)) ↦ absurd (h m e)
      | inr (inr e) ↦ (
        pos 10,
        unfold get_attribute in rw (got, e) (unfold get_value in refl),
        λ v. ((a, false), unfold set_attribute in rw (put, e) (unfold set_value in refl), refl),
      )
    ]

pub change_attrs-IsSafe : (d : Dict String ℤ) → AllNumeric d → IsSafe (change_attrs d)
unfolding change_attrs
change_attrs-IsSafe [] h p k = (refl, k)
change_attrs-IsSafe ((name, delta) ∷ rest) (h, hs) p k =
    let (n, e, sets) = numeric_lem name p.attributes h k in
    let (r, f, keep) = sets (n +ℤ delta) in
    let q : Player = record p { attributes = r.0 } in
    let (ok, safe) = change_attrs-IsSafe rest hs q (ap is_intact keep ∙ k) in
    let note = attr_note p.character_name name n (n +ℤ delta) delta in
    let (same, done) = note_first_lem note (change_attrs rest q) in
    rw (e, change_attr, f)
      (unfold note_attr in
        (done ∙ ok, ap (λ (x : Player). is_intact x.attributes.overwritten) same ∙ safe))

pub add_item-keeps :
    (name : String) (qty : ℤ) (now : ℕ) (p : Player)
    → ((add_item name qty now p).0.attributes ≡ p.attributes)
      × (vitals (add_item name qty now p).0 ≡ vitals p)
unfolding add_item
add_item-keeps name qty now p = elim (Option-cases (grow name qty p.inventory)) [
  | inl e ↦ rw (add_item, e) (refl, refl)
  | inr (a, e) ↦ rw (add_item, e) (refl, refl)
]

pub remove_item-keeps :
    (name : String) (qty : ℤ) (now : ℕ) (p : Player)
    → ((remove_item name qty now p).0.attributes ≡ p.attributes)
      × (vitals (remove_item name qty now p).0 ≡ vitals p)
unfolding remove_item
remove_item-keeps name qty now p = elim (Option-cases (shrink name qty p.inventory)) [
  | inl e ↦ rw (remove_item, e) (refl, refl)
  | inr (a, e) ↦ rw (remove_item, e) (refl, refl)
]

-- A loss goes on with the character that is left, with a note or without.
pub lose_item_lem :
    (next : Player → Worked) (name : String) (qty : ℤ) (r : Player × Option InventoryItem)
    → ((lose_item next name qty r).0 ≡ (next r.0).0)
      × (is_some (lose_item next name qty r).1 ≡ is_some (next r.0).1)
unfolding lose_item
lose_item_lem next name qty (q, none) = (refl, refl)
lose_item_lem next name qty (q, some item) =
    note_first_lem (loss_note q.character_name name qty) (next q)

pub gain_items-IsSafe : (now : ℕ) (items : List (String × ℤ)) → IsSafe (gain_items now items)
unfolding gain_items
gain_items-IsSafe now [] p h = (refl, h)
gain_items-IsSafe now ((name, qty) ∷ rest) p h =
    let q = (add_item name qty now p).0 in
    let kept = add_item-keeps name qty now p in
    let (ok, safe) =
      gain_items-IsSafe now rest q
        (ap (λ (a : PlayerAttributes). is_intact a.overwritten) kept.0 ∙ h) in
    let (same, done) =
      note_first_lem (gain_note p.character_name name qty) (gain_items now rest q) in
    (done ∙ ok, ap (λ (x : Player). is_intact x.attributes.overwritten) same ∙ safe)

pub lose_items-IsSafe : (now : ℕ) (items : List (String × ℤ)) → IsSafe (lose_items now items)
unfolding lose_items
lose_items-IsSafe now [] p h = (refl, h)
lose_items-IsSafe now ((name, qty) ∷ rest) p h =
    let q = (remove_item name qty now p).0 in
    let kept = remove_item-keeps name qty now p in
    let (ok, safe) =
      lose_items-IsSafe now rest q
        (ap (λ (a : PlayerAttributes). is_intact a.overwritten) kept.0 ∙ h) in
    let (same, done) = lose_item_lem (lose_items now rest) name qty (remove_item name qty now p) in
    (done ∙ ok, ap (λ (x : Player). is_intact x.attributes.overwritten) same ∙ safe)
