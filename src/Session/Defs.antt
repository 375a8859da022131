-- ===== src/Session/Defs.antt =====
-- class TRPGSession of models/session.py. `now` is the value of `time.time()` at the call.
use mai_bot_trpg_plugin.Prelude.{
  ℕ, String, ◌-◌, Bool, Option, none, List, [], ◌∷◌, ◌++◌, length, last, contains, remove,
  string_eq, ◌==◌, nat_eq, leb, if◌then◌else◌,
}
use mai_bot_trpg_plugin.Prelude.Dict.{Dict, insert}
use mai_bot_trpg_plugin.Prelude.Chars.{◌+++◌}
use mai_bot_trpg_plugin.Json.{Value, obj, end}
use mai_bot_trpg_plugin.Session.World.{NpcState, new_npc, HistoryEntry, WorldState, default_world}
use mai_bot_trpg_plugin.Session.Story.{StoryContext, default_story, add_key_event}

pub record TrpgSession : Type 0 where
  pub stream_id : String
  pub status : String
  pub world_name : String
  pub created_at : ℕ
  pub updated_at : ℕ
  pub world_state : WorldState
  pub history : List HistoryEntry
  pub npcs : Dict String NpcState
  pub lore : List String
  pub player_ids : List String
  pub story_context : StoryContext

-- `TRPGSession(stream_id=…, world_name=…)`, with the defaults of the class.
abbrev pub new_session : String → String → ℕ → TrpgSession
new_session stream_id world_name now = record {
  stream_id = stream_id;
  status = "active";
  world_name = world_name;
  created_at = now;
  updated_at = now;
  world_state = default_world;
  history = [];
  npcs = [];
  lore = [];
  player_ids = [];
  story_context = default_story;
}

-- The arguments that most callers leave out are those of `add_history_as`.
unfoldable pub add_history_as :
    String → String → Option String → Option String → Value → ℕ → TrpgSession → TrpgSession
add_history_as entry_type content user_id character_name extra_data now s = record s {
  history =
      s.history
      ++ record {
        entry_type = entry_type;
        content = content;
        timestamp = now;
        user_id = user_id;
        character_name = character_name;
        extra_data = extra_data;
      }
        ∷ [];
  updated_at = now;
}

unfoldable pub add_history : String → String → ℕ → TrpgSession → TrpgSession
unfolding add_history_as
add_history entry_type content now s = add_history_as entry_type content none none (obj end) now s

-- `history[-count:]`, which is the whole history for a count of 0.
unfoldable pub get_recent_history : ℕ → TrpgSession → List HistoryEntry
unfolding last
get_recent_history count s = if count == 0 then s.history else last count s.history

unfoldable pub add_npc : String → ℕ → TrpgSession → TrpgSession
unfolding insert
add_npc name now s = record s { npcs = insert name (new_npc name) s.npcs; updated_at = now }

unfoldable pub add_player : String → ℕ → TrpgSession → TrpgSession
add_player user_id now s =
    if contains user_id s.player_ids
    then s
    else record s { player_ids = s.player_ids ++ user_id ∷ []; updated_at = now }

unfoldable pub remove_player : String → ℕ → TrpgSession → TrpgSession
remove_player user_id now s =
    if contains user_id s.player_ids
    then record s { player_ids = remove user_id s.player_ids; updated_at = now }
    else s

unfoldable pub is_active : TrpgSession → Bool
is_active s = s.status == "active"

-- `max(0, index - removed)` is the truncated difference.
unfoldable pub shift_indices : ℕ → StoryContext → StoryContext
shift_indices removed ctx = record ctx {
  last_image_history_index = ctx.last_image_history_index - removed;
  last_summary_history_index = ctx.last_summary_history_index - removed;
}

-- The session after the cut, and the number of entries that went. A bound of 0 stands for every
-- bound that is not positive.
unfoldable pub trim_history : ℕ → ℕ → TrpgSession → TrpgSession × ℕ
unfolding last shift_indices
trim_history max_length now s =
    if max_length == 0
    then (s, 0)
    else if leb (length s.history) max_length
    then (s, 0)
    else let removed = length s.history - max_length in
      (
        record s {
          history = last max_length s.history;
          story_context = shift_indices removed s.story_context;
          updated_at = now;
        },
        removed,
      )

-- What `update_story_summary` of services/dm_engine.py writes when the model answers: the stripped
-- text is `summary`.
unfoldable pub mark_summary : String → TrpgSession → TrpgSession
mark_summary summary s = record s {
  story_context = record s.story_context {
    story_summary = summary;
    last_summary_history_index = length s.history;
  };
}

-- What `_check_and_generate_climax_image` of components/handlers.py writes when an image was sent.
unfoldable pub mark_image : TrpgSession → TrpgSession
unfolding add_key_event
mark_image s = record s {
  story_context =
      add_key_event ("[场景图片] " +++ s.world_state.location)
        (record s.story_context { last_image_history_index = length s.history });
}
