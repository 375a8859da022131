-- ===== src/Modules/Loader.antt =====
-- class ModuleLoader of modules/loader.py: reading, writing and applying a module. The preset modules
-- are data of other files and come in as a dictionary; a custom module is the file of its name in the
-- modules directory, where `none` is a file whose text is no JSON.
use mai_bot_trpg_plugin.Prelude.{ℕ, String, Bool, true, Option, none, some, [], ◌∷◌, string_eq}
use mai_bot_trpg_plugin.Prelude.Chars.{◌+++◌}
use mai_bot_trpg_plugin.Prelude.Dict.{Dict, lookup, insert}
use mai_bot_trpg_plugin.Json.{
  Value, obj, end, Fields, ◌>>=◌, as_obj, as_text, as_any, as_list, get, field_or,
}
use mai_bot_trpg_plugin.Session.World.{NpcState}
use mai_bot_trpg_plugin.Session.Defs.{TrpgSession, add_history}
use mai_bot_trpg_plugin.Storage.Defs.{Storage, save_session}
use mai_bot_trpg_plugin.Modules.Base.{NpcTemplate, ModuleInfo, ModuleBase, module_to_dict}

pub record ModuleLoader : Type 0 where
  pub presets : Dict String ModuleBase
  pub custom : Dict String (Option Value)

-- The parsing of the information; `stem` is the name of the file.
unfoldable pub info_from_dict : String → Fields → Option ModuleInfo
unfolding field_or get
info_from_dict stem fs = do
  id ← field_or as_text "id" stem fs
  name ← field_or as_text "name" "未命名模组" fs
  description ← field_or as_text "description" "" fs
  author ← field_or as_text "author" "Anonymous" fs
  version ← field_or as_text "version" "1.0.0" fs
  genre ← field_or as_text "genre" "fantasy" fs
  difficulty ← field_or as_text "difficulty" "normal" fs
  player_count ← field_or as_text "player_count" "2-5" fs
  duration ← field_or as_text "duration" "未知" fs
  tags ← field_or (as_list as_text) "tags" [] fs
  some (record {
    id = id;
    name = name;
    description = description;
    author = author;
    version = version;
    genre = genre;
    difficulty = difficulty;
    player_count = player_count;
    duration = duration;
    tags = tags;
  })

-- The module instance of `_load_custom_module`, with the defaults of the class for what is not read.
unfoldable pub module_from_dict : ModuleInfo → Fields → Option ModuleBase
unfolding field_or get
module_from_dict info fs = do
  world_name ← field_or as_text "world_name" info.name fs
  world_background ← field_or as_text "world_background" "" fs
  lore ← field_or (as_list as_text) "lore" [] fs
  intro_text ← field_or as_text "intro_text" "" fs
  starting_location ← field_or as_text "starting_location" "起点" fs
  starting_time ← field_or as_text "starting_time" "day" fs
  starting_weather ← field_or as_text "starting_weather" "sunny" fs
  dm_notes ← field_or as_text "dm_notes" "" fs
  plot_hooks ← field_or (as_list as_text) "plot_hooks" [] fs
  key_items ← field_or (as_list as_any) "key_items" [] fs
  endings ← field_or (as_list as_any) "endings" [] fs
  some (record {
    info = info;
    world_name = world_name;
    world_background = world_background;
    lore = lore;
    intro_text = intro_text;
    starting_location = starting_location;
    starting_time = starting_time;
    starting_weather = starting_weather;
    npcs = [];
    locations = [];
    events = [];
    key_items = key_items;
    endings = endings;
    dm_notes = dm_notes;
    plot_hooks = plot_hooks;
  })

unfoldable pub load_info : String → Fields → Option ModuleInfo
unfolding info_from_dict field_or get
load_info stem data_ = do
  info_data ← as_obj (← field_or as_any "info" (obj end) data_)
  info_from_dict stem info_data

-- `_load_custom_module`; a failure is logged and gives no module.
unfoldable pub load_custom_module : String → Option Value → Option ModuleBase
unfolding load_info module_from_dict
load_custom_module stem content = do
  data_ ← content >>= as_obj
  info ← load_info stem data_
  module_from_dict info data_

-- The branches of `load_module`: the preset, then the file.
unfoldable pub load_found : String → Option ModuleBase → Option (Option Value) → Option ModuleBase
unfolding load_custom_module
load_found module_id (some m) file = some m
load_found module_id none (some content) = load_custom_module module_id content
load_found module_id none none = none

unfoldable pub load_module : String → ModuleLoader → Option ModuleBase
unfolding lookup load_found
load_module module_id loader =
    load_found module_id (lookup module_id loader.presets) (lookup module_id loader.custom)

-- A failure of the file system is not modelled.
unfoldable pub save_custom_module : ModuleBase → ModuleLoader → ModuleLoader × Bool
unfolding insert module_to_dict
save_custom_module m loader = (
  record loader { custom = insert m.info.id (some (obj (module_to_dict m))) loader.custom },
  true,
)

-- The loop over the NPCs of the module.
unfoldable pub apply_npcs : Dict String NpcTemplate → Dict String NpcState → Dict String NpcState
unfolding insert
apply_npcs [] npcs = npcs
apply_npcs ((npc_name, t) ∷ rest) npcs = apply_npcs rest (
    insert npc_name
      (record {
        name = t.name;
        status = "normal";
        location = t.location;
        attitude = t.attitude;
        description = t.description;
        notes = "";
      })
      npcs)

-- The session that `apply_module_to_session` saves.
unfoldable pub apply_module : ModuleBase → ℕ → TrpgSession → TrpgSession
unfolding apply_npcs add_history
apply_module m now s =
    let set : TrpgSession = record s {
      world_name = m.world_name;
      world_state = record s.world_state {
        location = m.starting_location;
        time_of_day = m.starting_time;
        weather = m.starting_weather;
        location_description = m.world_background;
      };
      lore = m.lore;
      npcs = apply_npcs m.npcs s.npcs;
    } in
    add_history "dm" m.intro_text now (add_history "system" ("模组加载: " +++ m.info.name) now set)

unfoldable pub apply_module_to_session : ModuleBase → ℕ → TrpgSession → Storage → Storage
unfolding apply_module save_session
apply_module_to_session m now s st = save_session now (apply_module m now s) st
