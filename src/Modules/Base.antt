-- ===== src/Modules/Base.antt =====
-- The classes of modules/base.py, and ModuleBase.to_dict.
use mai_bot_trpg_plugin.Prelude.{String, List}
use mai_bot_trpg_plugin.Prelude.Dict.{Dict}
use mai_bot_trpg_plugin.Json.{Value, text, arr, obj, Fields, member, end, to_items, to_fields}

pub record NpcTemplate : Type 0 where
  pub name : String
  pub description : String
  pub location : String
  pub attitude : String
  pub dialogue_style : String
  pub secrets : List String
  pub inventory : List String

pub record LocationTemplate : Type 0 where
  pub name : String
  pub description : String
  pub connections : List String
  pub items : List String
  pub npcs : List String
  pub events : List String
  pub hidden_info : String

pub record EventTemplate : Type 0 where
  pub name : String
  pub description : String
  pub trigger : String
  pub consequences : List String

pub record ModuleInfo : Type 0 where
  pub id : String
  pub name : String
  pub description : String
  pub author : String
  pub version : String
  pub genre : String
  pub difficulty : String
  pub player_count : String
  pub duration : String
  pub tags : List String

-- The key items and the endings are dictionaries that the code only passes on.
pub record ModuleBase : Type 0 where
  pub info : ModuleInfo
  pub world_name : String
  pub world_background : String
  pub lore : List String
  pub intro_text : String
  pub starting_location : String
  pub starting_time : String
  pub starting_weather : String
  pub npcs : Dict String NpcTemplate
  pub locations : Dict String LocationTemplate
  pub events : List EventTemplate
  pub key_items : List Value
  pub endings : List Value
  pub dm_notes : String
  pub plot_hooks : List String

abbrev pub texts : List String → Value
texts xs = arr (to_items text xs)

-- `vars(v)` of the templates.
unfoldable pub npc_vars : NpcTemplate → Value
unfolding to_items
npc_vars n = obj (
    member "name" (text n.name) (
      member "description" (text n.description) (
        member "location" (text n.location) (
          member "attitude" (text n.attitude) (
            member "dialogue_style" (text n.dialogue_style)
              (member "secrets" (texts n.secrets) (member "inventory" (texts n.inventory) end)))))))

unfoldable pub location_vars : LocationTemplate → Value
unfolding to_items
location_vars l = obj (
    member "name" (text l.name) (
      member "description" (text l.description) (
        member "connections" (texts l.connections) (
          member "items" (texts l.items) (
            member "npcs" (texts l.npcs) (
              member "events" (texts l.events) (member "hidden_info" (text l.hidden_info) end)))))))

unfoldable pub event_vars : EventTemplate → Value
unfolding to_items
event_vars e = obj (
    member "name" (text e.name) (
      member "description" (text e.description)
        (member "trigger" (text e.trigger) (member "consequences" (texts e.consequences) end))))

unfoldable pub info_to_fields : ModuleInfo → Fields
unfolding to_items
info_to_fields i = member "id" (text i.id) (
    member "name" (text i.name) (
      member "description" (text i.description) (
        member "author" (text i.author) (
          member "version" (text i.version) (
            member "genre" (text i.genre) (
              member "difficulty" (text i.difficulty) (
                member "player_count" (text i.player_count)
                  (member "duration" (text i.duration) (member "tags" (texts i.tags) end)))))))))

-- ModuleBase.to_dict
unfoldable pub module_to_dict : ModuleBase → Fields
unfolding info_to_fields npc_vars location_vars event_vars to_items to_fields
module_to_dict m = member "info" (obj (info_to_fields m.info)) (
    member "world_name" (text m.world_name) (
      member "world_background" (text m.world_background) (
        member "lore" (texts m.lore) (
          member "intro_text" (text m.intro_text) (
            member "starting_location" (text m.starting_location) (
              member "starting_time" (text m.starting_time) (
                member "starting_weather" (text m.starting_weather) (
                  member "npcs" (obj (to_fields npc_vars m.npcs)) (
                    member "locations" (obj (to_fields location_vars m.locations)) (
                      member "events" (arr (to_items event_vars m.events)) (
                        member "key_items" (arr (to_items (λ v. v) m.key_items)) (
                          member "endings" (arr (to_items (λ v. v) m.endings)) (
                            member "dm_notes" (text m.dm_notes)
                              (member "plot_hooks" (texts m.plot_hooks) end))))))))))))))
