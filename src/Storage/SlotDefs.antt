-- ===== src/Storage/SlotDefs.antt =====
-- The save slots of class StorageManager of models/storage.py.
use Prim.Native.Char.{Char, code}
use mai_bot_trpg_plugin.Prelude.{
  ℕ, zero, suc, String, Bool, true, false, not, ◌&&◌, ◌||◌, Option, none, some, List, [], ◌∷◌,
  string_eq, nat_beq, ltb, if◌then◌else◌,
}
use mai_bot_trpg_plugin.Prelude.Dict.{lookup, lookup_or, has_key, insert, erase, values}
use mai_bot_trpg_plugin.Json.{
  Value, Items, nil, cons, Fields, text, arr, obj, end, member, ◌>>=◌, as_obj, as_arr, get,
  field_or, as_any,
}
use mai_bot_trpg_plugin.Player.Defs.{Player}
use mai_bot_trpg_plugin.Player.Codec.{player_to_dict, player_from_dict}
use mai_bot_trpg_plugin.Player.Codec as PlayerCodec
use mai_bot_trpg_plugin.Session.Defs.{TrpgSession}
use mai_bot_trpg_plugin.Session.Codec.{session_to_dict, session_from_dict}
use mai_bot_trpg_plugin.Session.Codec as SessionCodec
use mai_bot_trpg_plugin.Storage.Files.{FilePath, slot_file, path_eq}
use mai_bot_trpg_plugin.Storage.Defs.{
  Storage, write_file, enable_group, get_session, has_active_session, save_session, put_player,
  save_player,
}

-- `stream_id.replace(":", "_").replace("/", "_")`
unfoldable pub safe_char : Char → Char
safe_char c = if nat_beq (code c) b':' || nat_beq (code c) b'/' then "_" else c

unfoldable pub safe_id : String → String
unfolding safe_char
safe_id String.[] = String.[]
safe_id (String.◌∷◌ c s) = String.◌∷◌ (safe_char c) (safe_id s)

-- The messages of the slot methods.
pub data SlotReply : Type 0 where
  saved loaded deleted : SlotReply
  bad_slot no_session no_overwrite no_save session_running load_failed : SlotReply
  type_error : SlotReply

abbrev pub slot_path : String → ℕ → FilePath
slot_path stream_id slot = slot_file (safe_id stream_id) slot

-- What `list_save_slots` reports of one slot.
pub data SlotInfo : Type 0 where
  filled : (world_name saved_at : Value) (player_count : ℕ) → SlotInfo
  unreadable empty_slot : SlotInfo

abbrev count_items : Items → ℕ
count_items nil = 0
count_items (cons v vs) = suc (count_items vs)

unfoldable pub describe_save : Value → Option SlotInfo
unfolding get field_or
describe_save v = do
  fs ← as_obj v
  session ← as_obj (← field_or as_any "session" (obj end) fs)
  world_name ← field_or as_any "world_name" (text "未知") session
  saved_at ← field_or as_any "saved_at" (text "未知") fs
  players ← as_arr (← field_or as_any "players" (arr nil) fs)
  some (filled world_name saved_at (count_items players))

-- A file that holds no JSON, or JSON of another shape, is reported as an error.
unfoldable pub slot_info : String → ℕ → Storage → SlotInfo
unfolding lookup describe_save safe_id
slot_info stream_id slot st = elim (lookup (slot_path stream_id slot) st.files) [
  | none ↦ empty_slot
  | some content ↦ elim (content >>= describe_save) [ none ↦ unreadable | some info ↦ info ]
]

-- The slots from `slot` on, `count` of them.
unfoldable pub list_from : String → ℕ → ℕ → Storage → List (ℕ × SlotInfo)
unfolding slot_info
list_from stream_id slot zero st = []
list_from stream_id slot (suc count) st =
    (slot, slot_info stream_id slot st) ∷ list_from stream_id (suc slot) count st

unfoldable pub list_save_slots : String → Storage → List (ℕ × SlotInfo)
unfolding list_from
list_save_slots stream_id st = list_from stream_id 1 st.config.max_slots st

-- `[player.to_dict() for player in …]`
unfoldable pub players_data : List Player → Option Items
unfolding player_to_dict
players_data [] = some nil
players_data (p ∷ ps) = do v ← player_to_dict p; vs ← players_data ps; some (cons v vs)

unfoldable pub save_value : String → TrpgSession → Items → Value
unfolding session_to_dict
save_value stamp session players = obj (
    member "saved_at" (text stamp)
      (member "session" (obj (session_to_dict session)) (member "players" (arr players) end)))

abbrev pub is_slot : ℕ → Storage → Bool
is_slot slot st = not (ltb slot 1 || ltb st.config.max_slots slot)

-- `stamp` is the formatted local time.
unfoldable pub save_to_slot : String → ℕ → String → Storage → Storage × SlotReply
unfolding has_key
save_to_slot stream_id slot stamp st =
    if not (is_slot slot st) then (st, bad_slot) else elim (get_session stream_id st) [
      | none ↦ (st, no_session)
      | some session ↦
          (if has_key (slot_path stream_id slot) st.files && not st.config.allow_overwrite
            then (st, no_overwrite)
            else elim (players_data (values (lookup_or stream_id [] st.players))) [
              | none ↦ (st, type_error)
              | some players ↦ (
                write_file (slot_path stream_id slot) (some (save_value stamp session players)) st,
                saved,
              )
            ])
    ]

-- The loop of `load_from_slot` over the saved players; `false` is an exception, which leaves the
-- players that came before it.
unfoldable pub restore_players : String → ℕ → Items → Storage → Storage × Bool
restore_players stream_id now nil st = (st, true)
restore_players stream_id now (cons v vs) st =
    elim (PlayerCodec.retarget stream_id v >>= player_from_dict now) [
      | none ↦ (st, false)
      | some player ↦
          restore_players stream_id now vs (save_player player (put_player stream_id player st)).0
    ]

-- The restored players and the group, where there is a list of saved players.
unfoldable pub load_items : String → ℕ → Option Items → Storage → Storage × SlotReply
load_items stream_id now none st = (st, load_failed)
load_items stream_id now (some players) st =
    let (restored, ok) = restore_players stream_id now players st in
    if ok then ((enable_group stream_id restored).0, loaded) else (restored, load_failed)

-- The part of `load_from_slot` behind the restored session.
unfoldable pub load_players : String → ℕ → Fields → Storage → Storage × SlotReply
load_players stream_id now save st =
    load_items stream_id now (field_or as_any "players" (arr nil) save >>= as_arr)
      (record st { players = insert stream_id [] st.players })

-- The restored session, where it can be read.
unfoldable pub load_session :
    String → ℕ → Fields → Option TrpgSession → Storage → Storage × SlotReply
load_session stream_id now save none st = (st, load_failed)
load_session stream_id now save (some session) st =
    load_players stream_id now save (save_session now session st)

unfoldable pub saved_session : String → ℕ → Fields → Option TrpgSession
unfolding field_or get
saved_session stream_id now save = do
  session ← as_obj (← field_or as_any "session" (obj end) save)
  session_from_dict now (SessionCodec.retarget stream_id session)

-- The `try` block of `load_from_slot`.
unfoldable pub load_save : String → ℕ → Option Value → Storage → Storage × SlotReply
load_save stream_id now content st = elim (content >>= as_obj) [
  | none ↦ (st, load_failed)
  | some save ↦ load_session stream_id now save (saved_session stream_id now save) st
]

unfoldable pub load_from_slot : String → ℕ → ℕ → Storage → Storage × SlotReply
load_from_slot stream_id slot now st =
    if not (is_slot slot st)
    then (st, bad_slot)
    else if has_active_session stream_id st
    then (st, session_running)
    else elim (lookup (slot_path stream_id slot) st.files) [
      | none ↦ (st, no_save)
      | some content ↦ load_save stream_id now content st
    ]

-- A failure of the file system is not modelled.
unfoldable pub delete_slot : String → ℕ → Storage → Storage × SlotReply
unfolding has_key erase safe_id
delete_slot stream_id slot st =
    if not (is_slot slot st)
    then (st, bad_slot)
    else if has_key (slot_path stream_id slot) st.files
    then (record st { files = erase (slot_path stream_id slot) st.files }, deleted)
    else (st, no_save)
