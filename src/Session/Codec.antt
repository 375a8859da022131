-- ===== src/Session/Codec.antt =====
-- `to_dict` and `from_dict` of models/session.py. `none` is an exception.
use mai_bot_trpg_plugin.Prelude.{
  ℕ, String, ◌≡◌, refl, Option, none, some, List, [], ◌∷◌, contains, string_eq, if◌then◌else◌,
}
use mai_bot_trpg_plugin.Prelude.Int.{pos}
use mai_bot_trpg_plugin.Prelude.Dict.{Dict}
use mai_bot_trpg_plugin.Json.{
  Value, num, text, arr, obj, Fields, set_field, end, member, ◌>>=◌, get, only, as_obj, as_text,
  as_nat, as_maybe, maybe_text, as_any, as_list, as_dict, field_or, required, to_items, of_items,
  to_fields, of_fields, of_items-text,
}
use mai_bot_trpg_plugin.Session.World.{NpcState, HistoryEntry, WorldState}
use mai_bot_trpg_plugin.Session.Story.{StoryContext}
use mai_bot_trpg_plugin.Session.Defs.{TrpgSession}

-- NPCState.to_dict
unfoldable pub npc_to_dict : NpcState → Value
npc_to_dict n = obj (
    member "name" (text n.name) (
      member "status" (text n.status) (
        member "location" (text n.location) (
          member "attitude" (text n.attitude)
            (member "description" (text n.description) (member "notes" (text n.notes) end))))))

abbrev npc_fields : List String
npc_fields = "name" ∷ "status" ∷ "location" ∷ "attitude" ∷ "description" ∷ "notes" ∷ []

-- NPCState.from_dict
unfoldable pub npc_from_dict : Value → Option NpcState
unfolding only contains field_or required get
npc_from_dict v = do
  fs ← as_obj v
  name ← required as_text "name" fs
  status ← field_or as_text "status" "normal" fs
  location ← field_or as_text "location" "" fs
  attitude ← field_or as_text "attitude" "neutral" fs
  description ← field_or as_text "description" "" fs
  notes ← field_or as_text "notes" "" fs
  if only npc_fields fs
      then some (record {
        name = name;
        status = status;
        location = location;
        attitude = attitude;
        description = description;
        notes = notes;
      })
      else none

-- HistoryEntry.to_dict
unfoldable pub entry_to_dict : HistoryEntry → Value
entry_to_dict h = obj (
    member "entry_type" (text h.entry_type) (
      member "content" (text h.content) (
        member "timestamp" (num (pos h.timestamp)) (
          member "user_id" (maybe_text h.user_id) (
            member "character_name" (maybe_text h.character_name)
              (member "extra_data" h.extra_data end))))))

abbrev entry_fields : List String
entry_fields =
    "entry_type" ∷ "content" ∷ "timestamp" ∷ "user_id" ∷ "character_name" ∷ "extra_data" ∷ []

-- HistoryEntry.from_dict; `now` is the default of the timestamp.
unfoldable pub entry_from_dict : ℕ → Value → Option HistoryEntry
unfolding only contains field_or required get
entry_from_dict now v = do
  fs ← as_obj v
  entry_type ← required as_text "entry_type" fs
  content ← required as_text "content" fs
  timestamp ← field_or as_nat "timestamp" now fs
  user_id ← field_or as_maybe "user_id" none fs
  character_name ← field_or as_maybe "character_name" none fs
  extra_data ← field_or as_any "extra_data" (obj end) fs
  if only entry_fields fs
      then some (record {
        entry_type = entry_type;
        content = content;
        timestamp = timestamp;
        user_id = user_id;
        character_name = character_name;
        extra_data = extra_data;
      })
      else none

-- WorldState.to_dict
unfoldable pub world_to_dict : WorldState → Value
world_to_dict w = obj (
    member "time_of_day" (text w.time_of_day) (
      member "weather" (text w.weather) (
        member "location" (text w.location) (
          member "location_description" (text w.location_description)
            (member "custom_states" w.custom_states end)))))

abbrev world_fields : List String
world_fields =
    "time_of_day" ∷ "weather" ∷ "location" ∷ "location_description" ∷ "custom_states" ∷ []

-- WorldState.from_dict
unfoldable pub world_from_dict : Value → Option WorldState
unfolding only contains field_or get
world_from_dict v = do
  fs ← as_obj v
  time_of_day ← field_or as_text "time_of_day" "day" fs
  weather ← field_or as_text "weather" "sunny" fs
  location ← field_or as_text "location" "未知地点" fs
  location_description ← field_or as_text "location_description" "" fs
  custom_states ← field_or as_any "custom_states" (obj end) fs
  if only world_fields fs
      then some (record {
        time_of_day = time_of_day;
        weather = weather;
        location = location;
        location_description = location_description;
        custom_states = custom_states;
      })
      else none

-- StoryContext.to_dict
unfoldable pub story_to_dict : StoryContext → Value
unfolding to_items
story_to_dict c = obj (
    member "current_chapter" (text c.current_chapter) (
      member "current_scene" (text c.current_scene) (
        member "story_summary" (text c.story_summary) (
          member "key_events" (arr (to_items text c.key_events)) (
            member "open_threads" (arr (to_items text c.open_threads)) (
              member "discovered_clues" (arr (to_items text c.discovered_clues)) (
                member "tension_level" (num (pos c.tension_level)) (
                  member "last_image_history_index" (num (pos c.last_image_history_index)) (
                    member "last_summary_history_index" (num (pos c.last_summary_history_index))
                      end)))))))))

-- StoryContext.from_dict
unfoldable pub story_from_dict : Value → Option StoryContext
unfolding field_or get as_list
story_from_dict v = do
  fs ← as_obj v
  current_chapter ← field_or as_text "current_chapter" "" fs
  current_scene ← field_or as_text "current_scene" "" fs
  story_summary ← field_or as_text "story_summary" "" fs
  key_events ← field_or (as_list as_text) "key_events" [] fs
  open_threads ← field_or (as_list as_text) "open_threads" [] fs
  discovered_clues ← field_or (as_list as_text) "discovered_clues" [] fs
  tension_level ← field_or as_nat "tension_level" 3 fs
  last_image_history_index ← field_or as_nat "last_image_history_index" 0 fs
  last_summary_history_index ← field_or as_nat "last_summary_history_index" 0 fs
  some (record {
    current_chapter = current_chapter;
    current_scene = current_scene;
    story_summary = story_summary;
    key_events = key_events;
    open_threads = open_threads;
    discovered_clues = discovered_clues;
    tension_level = tension_level;
    last_image_history_index = last_image_history_index;
    last_summary_history_index = last_summary_history_index;
  })

-- TRPGSession.to_dict
unfoldable pub session_to_dict : TrpgSession → Fields
unfolding world_to_dict entry_to_dict npc_to_dict story_to_dict to_items to_fields
session_to_dict s = member "stream_id" (text s.stream_id) (
    member "status" (text s.status) (
      member "world_name" (text s.world_name) (
        member "created_at" (num (pos s.created_at)) (
          member "updated_at" (num (pos s.updated_at)) (
            member "world_state" (world_to_dict s.world_state) (
              member "history" (arr (to_items entry_to_dict s.history)) (
                member "npcs" (obj (to_fields npc_to_dict s.npcs)) (
                  member "lore" (arr (to_items text s.lore)) (
                    member "player_ids" (arr (to_items text s.player_ids))
                      (member "story_context" (story_to_dict s.story_context) end))))))))))

-- TRPGSession.from_dict; `now` is the default of the times.
unfoldable pub session_from_dict : ℕ → Fields → Option TrpgSession
unfolding world_from_dict entry_from_dict npc_from_dict story_from_dict field_or required get
    as_list as_dict
session_from_dict now fs = do
  world_state ← world_from_dict (← field_or as_any "world_state" (obj end) fs)
  history ← field_or (as_list (entry_from_dict now)) "history" [] fs
  npcs ← field_or (as_dict npc_from_dict) "npcs" [] fs
  story_context ← story_from_dict (← field_or as_any "story_context" (obj end) fs)
  stream_id ← required as_text "stream_id" fs
  status ← field_or as_text "status" "active" fs
  world_name ← field_or as_text "world_name" "通用奇幻世界" fs
  created_at ← field_or as_nat "created_at" now fs
  updated_at ← field_or as_nat "updated_at" now fs
  lore ← field_or (as_list as_text) "lore" [] fs
  player_ids ← field_or (as_list as_text) "player_ids" [] fs
  some (record {
    stream_id = stream_id;
    status = status;
    world_name = world_name;
    created_at = created_at;
    updated_at = updated_at;
    world_state = world_state;
    history = history;
    npcs = npcs;
    lore = lore;
    player_ids = player_ids;
    story_context = story_context;
  })

npc_back : (n : NpcState) → npc_from_dict (npc_to_dict n) ≡ some n
unfolding npc_from_dict npc_to_dict
npc_back n = refl

maybe_back : (t : Option String) → as_maybe (maybe_text t) ≡ some t
maybe_back none = refl
maybe_back (some t) = refl

entry_back : (now : ℕ) (h : HistoryEntry) → entry_from_dict now (entry_to_dict h) ≡ some h
unfolding entry_from_dict entry_to_dict
entry_back now h = rw (maybe_back h.user_id, maybe_back h.character_name)

world_back : (w : WorldState) → world_from_dict (world_to_dict w) ≡ some w
unfolding world_from_dict world_to_dict
world_back w = refl

story_back : (c : StoryContext) → story_from_dict (story_to_dict c) ≡ some c
unfolding story_from_dict story_to_dict
story_back c =
    rw (of_items-text c.key_events, of_items-text c.open_threads, of_items-text c.discovered_clues)

history_back :
    (now : ℕ) (hs : List HistoryEntry)
    → of_items (entry_from_dict now) (to_items entry_to_dict hs) ≡ some hs
unfolding of_items to_items
history_back now [] = refl
history_back now (h ∷ hs) = rw (entry_back now h, history_back now hs)

npcs_back : (d : Dict String NpcState) → of_fields npc_from_dict (to_fields npc_to_dict d) ≡ some d
unfolding of_fields to_fields
npcs_back [] = refl
npcs_back ((k, n) ∷ d) = rw (npc_back n, npcs_back d)

-- A session that is written and read back is the same.
pub session_from_dict-to_dict :
    (now : ℕ) (s : TrpgSession) → session_from_dict now (session_to_dict s) ≡ some s
unfolding session_to_dict session_from_dict
session_from_dict-to_dict now s = rw (
  history_back now s.history,
  npcs_back s.npcs,
  of_items-text s.story_context.key_events,
  of_items-text s.story_context.open_threads,
  of_items-text s.story_context.discovered_clues,
  of_items-text s.lore,
  of_items-text s.player_ids,
)

-- The two keys that `load_from_slot` sets before it reads a session.
unfoldable pub retarget : String → Fields → Fields
unfolding set_field
retarget stream_id fs =
    set_field "status" (text "active") (set_field "stream_id" (text stream_id) fs)

-- A session that is written and read back after those two keys are set differs in them alone.
pub session_from_dict-retarget :
    (now : ℕ) (stream_id : String) (s : TrpgSession)
    → session_from_dict now (retarget stream_id (session_to_dict s))
      ≡ some (record s { stream_id = stream_id; status = "active" })
unfolding session_to_dict session_from_dict retarget
session_from_dict-retarget now stream_id s = rw (
  history_back now s.history,
  npcs_back s.npcs,
  of_items-text s.story_context.key_events,
  of_items-text s.story_context.open_threads,
  of_items-text s.story_context.discovered_clues,
  of_items-text s.lore,
  of_items-text s.player_ids,
)
