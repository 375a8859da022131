-- ===== src/DmEngine/Apply.antt =====
-- `apply_state_changes` of services/dm_engine.py: the changes go to the characters in the cache, each
-- of which is saved, and to the session. `none` is an exception; what was done before it stays done.
use mai_bot_trpg_plugin.Prelude.{
  ℕ, String, Bool, true, false, Option, none, some, List, [], ◌∷◌, ◌++◌, string_eq, ◌==◌,
  if◌then◌else◌,
}
use mai_bot_trpg_plugin.Prelude.Int.{ℤ, ◌+ℤ◌}
use mai_bot_trpg_plugin.Prelude.Dict.{Dict, lookup, lookup_or, insert}
use mai_bot_trpg_plugin.Player.Attributes.{PlayerAttributes, get_attribute, set_attribute}
use mai_bot_trpg_plugin.Player.Item.{InventoryItem}
use mai_bot_trpg_plugin.Player.Defs.{Player, modify_hp, modify_mp, add_item, remove_item}
use mai_bot_trpg_plugin.Session.Defs.{TrpgSession}
use mai_bot_trpg_plugin.Storage.Defs.{Storage, get_player, save_player, save_session}
use mai_bot_trpg_plugin.DmEngine.Changes.{GameStateChange, is_filled}

-- A line of the summary, with the values that it prints.
pub data Note : Type 0 where
  hp_note mp_note : (name : String) (old new delta : ℤ) → Note
  attr_note : (name attribute : String) (old new delta : ℤ) → Note
  gain_note loss_note : (name item : String) (qty : ℤ) → Note
  location_note : (old new : String) → Note
  time_note : String → Note

-- A character after its changes, and the notes.
abbrev pub Worked : Type 0
Worked = Player × Option (List Note)

unfoldable pub change_hp : ℕ → ℤ → Player → Worked
unfolding modify_hp
change_hp now delta p =
    let (q, old, new) = modify_hp delta now p in
    (q, some (hp_note q.character_name old new delta ∷ []))

unfoldable pub change_mp : ℕ → ℤ → Player → Worked
unfolding modify_mp
change_mp now delta p =
    let (q, old, new) = modify_mp delta now p in
    (q, some (mp_note q.character_name old new delta ∷ []))

unfoldable pub note_first : Note → Worked → Worked
note_first note (q, none) = (q, none)
note_first note (q, some notes) = (q, some (note ∷ notes))

-- One attribute from the call of `set_attribute` on, which may have raised. `next` is the rest of the
-- loop.
unfoldable pub note_attr :
    (Player → Worked) → String → ℤ → ℤ → Option (PlayerAttributes × Bool) → Player → Worked
unfolding ◌+ℤ◌ note_first
note_attr next name old delta none p = (p, none)
note_attr next name old delta (some (attributes, done)) p =
    note_first (attr_note p.character_name name old (old +ℤ delta) delta)
      (next (record p { attributes = attributes }))

-- One attribute from its old value on: there is none where `get_attribute` raised, or gave a bound
-- method, to which no number can be added.
unfoldable pub change_attr : (Player → Worked) → String → ℤ → Option ℤ → Player → Worked
unfolding ◌+ℤ◌ set_attribute note_attr
change_attr next name delta none p = (p, none)
change_attr next name delta (some old) p =
    note_attr next name old delta (set_attribute name (old +ℤ delta) p.attributes) p

unfoldable pub change_attrs : Dict String ℤ → Player → Worked
unfolding get_attribute change_attr
change_attrs [] p = (p, some [])
change_attrs ((name, delta) ∷ rest) p =
    change_attr (change_attrs rest) name delta (get_attribute name p.attributes) p

unfoldable pub gain_items : ℕ → List (String × ℤ) → Player → Worked
unfolding add_item note_first
gain_items now [] p = (p, some [])
gain_items now ((name, qty) ∷ rest) p =
    note_first (gain_note p.character_name name qty)
      (gain_items now rest (add_item name qty now p).0)

-- One loss, from what was removed on.
unfoldable pub lose_item : (Player → Worked) → String → ℤ → Player × Option InventoryItem → Worked
unfolding note_first
lose_item next name qty (q, none) = next q
lose_item next name qty (q, some item) = note_first (loss_note q.character_name name qty) (next q)

unfoldable pub lose_items : ℕ → List (String × ℤ) → Player → Worked
unfolding remove_item lose_item
lose_items now [] p = (p, some [])
lose_items now ((name, qty) ∷ rest) p =
    lose_item (lose_items now rest) name qty (remove_item name qty now p)

-- The object in the cache that was looked up under `user_id`.
unfoldable pub keep_player : String → String → Player → Storage → Storage
unfolding insert lookup_or
keep_player stream_id user_id p st = record st {
  players = insert stream_id (insert user_id p (lookup_or stream_id [] st.players)) st.players;
}

abbrev pub Applied : Type 0
Applied = Storage × Option (List Note)

-- Saving a character after its changes. `to_dict` may raise.
unfoldable pub saved_with : List Note → Storage × Bool → Applied
saved_with notes (t, true) = (t, some notes)
saved_with notes (t, false) = (t, none)

unfoldable pub save_worked : String → String → Worked → Storage → Applied
unfolding keep_player save_player saved_with
save_worked stream_id user_id (q, none) st = (keep_player stream_id user_id q st, none)
save_worked stream_id user_id (q, some notes) st =
    saved_with notes (save_player q (keep_player stream_id user_id q st))

unfoldable pub append_notes : List Note → Applied → Applied
append_notes notes (t, none) = (t, none)
append_notes notes (t, some more) = (t, some (notes ++ more))

unfoldable pub after_notes : (Storage → Applied) → Applied → Applied
unfolding append_notes
after_notes next (t, none) = (t, none)
after_notes next (t, some notes) = append_notes notes (next t)

module _ {V : Type 0} (work : V → Player → Worked) (stream_id : String) where
  unfoldable pub work_found : String → V → Option Player → Storage → Applied
  unfolding save_worked
  work_found user_id v none st = (st, some [])
  work_found user_id v (some p) st = save_worked stream_id user_id (work v p) st

  -- One of the five loops over the users of a table.
  unfoldable pub for_users : Dict String V → Storage → Applied
  unfolding get_player work_found after_notes
  for_users [] st = (st, some [])
  for_users ((user_id, v) ∷ rest) st =
      after_notes (for_users rest) (work_found user_id v (get_player stream_id user_id st) st)

-- `changes.get(key)` where it is a text that is not empty.
unfoldable pub new_value : Option String → Option String
new_value none = none
new_value (some value) = if value == "" then none else some value

unfoldable pub move_to : Option String → TrpgSession → TrpgSession × List Note
move_to none s = (s, [])
move_to (some place) s = (
  record s { world_state = record s.world_state { location = place } },
  location_note s.world_state.location place ∷ [],
)

unfoldable pub set_time : Option String → TrpgSession → TrpgSession × List Note
set_time none s = (s, [])
set_time (some time) s =
    (record s { world_state = record s.world_state { time_of_day = time } }, time_note time ∷ [])

-- The changes of the world, and the saving of the session, which is that of the cache.
unfoldable pub change_world : Dict String String → ℕ → TrpgSession → Storage → Applied
unfolding lookup new_value move_to set_time save_session
change_world world_changes now session st =
    let (moved, note1) = move_to (new_value (lookup "location" world_changes)) session in
    let (timed, note2) = set_time (new_value (lookup "time" world_changes)) moved in
    let t = if is_filled world_changes then save_session now timed st else st in
    (t, some (note1 ++ note2))

-- The changes of the characters, in the order of the code.
unfoldable pub change_players : GameStateChange → String → ℕ → Storage → Applied
unfolding change_hp change_mp change_attrs gain_items lose_items for_users after_notes
change_players c stream_id now st =
    after_notes (for_users (lose_items now) stream_id c.item_losses) (
      after_notes (for_users (gain_items now) stream_id c.item_gains) (
        after_notes (for_users change_attrs stream_id c.attr_changes) (
          after_notes (for_users (change_mp now) stream_id c.mp_changes)
            (for_users (change_hp now) stream_id c.hp_changes st))))

unfoldable pub apply_state_changes : GameStateChange → TrpgSession → ℕ → Storage → Applied
unfolding change_players change_world after_notes
apply_state_changes c session now st =
    after_notes (change_world c.world_changes now session)
      (change_players c session.stream_id now st)
