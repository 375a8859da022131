-- ===== src/Session/World.antt =====
-- The plain records of models/session.py: NPCState, HistoryEntry and WorldState. The statuses, times
-- and weathers are strings in the program's fields too; its enumerations are not used by them.
use mai_bot_trpg_plugin.Prelude.{ℕ, String, Option}
use mai_bot_trpg_plugin.Json.{Value, obj, end}

pub record NpcState : Type 0 where
  pub name : String
  pub status : String
  pub location : String
  pub attitude : String
  pub description : String
  pub notes : String

-- `NPCState(name=name)`, with the defaults of the class.
abbrev pub new_npc : String → NpcState
new_npc name = record {
  name = name;
  status = "normal";
  location = "";
  attitude = "neutral";
  description = "";
  notes = "";
}

pub record HistoryEntry : Type 0 where
  pub entry_type : String
  pub content : String
  pub timestamp : ℕ
  pub user_id : Option String
  pub character_name : Option String
  pub extra_data : Value

pub record WorldState : Type 0 where
  pub time_of_day : String
  pub weather : String
  pub location : String
  pub location_description : String
  pub custom_states : Value

abbrev pub default_world : WorldState
default_world = record {
  time_of_day = "day";
  weather = "sunny";
  location = "未知地点";
  location_description = "";
  custom_states = obj end;
}
