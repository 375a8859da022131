-- ===== src/Modules/Tests.antt =====
-- Runs of modules/loader.py.
use mai_bot_trpg_plugin.Prelude.{◌≡◌, refl, some, [], ◌∷◌, ◌==◌, string_eq, if◌then◌else◌}
use mai_bot_trpg_plugin.Prelude.Dict.{lookup}
use mai_bot_trpg_plugin.Modules.Base.{ModuleBase}
use mai_bot_trpg_plugin.Modules.Loader.{ModuleLoader, load_module, save_custom_module}
use mai_bot_trpg_plugin.Modules.Reload.{load_module-save_custom_module}

abbrev pub castle : ModuleBase
castle = record {
  info = record {
    id = "castle";
    name = "The Castle";
    description = "";
    author = "Anonymous";
    version = "1.0.0";
    genre = "fantasy";
    difficulty = "normal";
    player_count = "2-5";
    duration = "2h";
    tags = "short" ∷ [];
  };
  world_name = "Avalon";
  world_background = "";
  lore = "The king is gone." ∷ [];
  intro_text = "You stand at a gate.";
  starting_location = "gate";
  starting_time = "night";
  starting_weather = "rainy";
  npcs =
      (
        "Guard",
        record {
          name = "Guard";
          description = "asleep";
          location = "gate";
          attitude = "neutral";
          dialogue_style = "";
          secrets = [];
          inventory = [];
        },
      )
      ∷ [];
  locations = [];
  events = [];
  key_items = [];
  endings = [];
  dm_notes = "";
  plot_hooks = [];
}

abbrev pub no_modules : ModuleLoader
no_modules = record { presets = []; custom = [] }

load_module-save_custom_module_example :
    load_module "castle" (save_custom_module castle no_modules).0 ≡ (
      if castle.info.id == "castle"
      then some (record castle { npcs = []; locations = []; events = [] })
      else load_module "castle" no_modules)
unfolding lookup
load_module-save_custom_module_example =
    load_module-save_custom_module castle no_modules refl "castle"
