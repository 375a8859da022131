-- ===== src/Storage/Tests.antt =====
-- Runs of models/storage.py on small storages.
use mai_bot_trpg_plugin.Prelude.{
  String, ◌≡◌, ◌≢◌, refl, true, false, none, some, [], ◌∷◌, ◌==◌, string_eq, contains,
  if◌then◌else◌, is_some, IsDistinct,
}
use mai_bot_trpg_plugin.Prelude.Int.{pos}
use mai_bot_trpg_plugin.Prelude.Dict.{
  values, has_key, insert, erase, lookup, lookup_or, HasDistinctKeys,
}
use mai_bot_trpg_plugin.Player.Codec.{player_to_dict}
use mai_bot_trpg_plugin.Player.Tests.{hero}
use mai_bot_trpg_plugin.Session.Defs.{
  TrpgSession, trim_history, add_history, add_history_as, mark_summary,
}
use mai_bot_trpg_plugin.Session.Tests.{tale}
use mai_bot_trpg_plugin.Storage.Files.{path_eq, path_beq}
use mai_bot_trpg_plugin.Storage.Defs.{
  Storage, Config, get_session, get_player, has_active_session, end_session, create_session,
  create_player, delete_player, end_found, save_session, write_file, active_in, new_storage,
}
use mai_bot_trpg_plugin.Storage.SlotDefs.{
  players_data, save_to_slot, load_from_slot, slot_path, saved, loaded,
}
use mai_bot_trpg_plugin.Storage.Slots.{IsKeyed, restored}
use mai_bot_trpg_plugin.Storage.RoundTrip.{load_from_slot-save_to_slot}
use mai_bot_trpg_plugin.Storage.Start.{unless_ended, restart, save_all, initialize}
use mai_bot_trpg_plugin.Storage.Restart.{HoldsOwn, restart-save_session}
use mai_bot_trpg_plugin.Storage.Players.{
  members, create_player_joins, delete_player_leaves, create_session-end_session,
}

abbrev pub plain_config : Config
plain_config = record {
  allowed_groups = [];
  max_slots = 3;
  allow_overwrite = true;
  max_history_length = 100;
  default_free_points = pos 30;
  base_attribute = pos 8;
  default_max_hp = pos 20;
  default_max_mp = pos 10;
}

abbrev pub running : TrpgSession
running = record tale { player_ids = "u1" ∷ [] }

abbrev pub table_one : Storage
table_one = record {
  config = plain_config;
  sessions = ("g1", running) ∷ [];
  players = ("g1", ("u1", hero) ∷ []) ∷ [];
  groups = "g1" ∷ [];
  pending_joins = [];
  files = [];
}

-- The table is saved to slot 2, and its session is ended.
abbrev later : Storage
later = (end_session "g1" 9 (save_to_slot "g1" 2 "noon" table_one).0).0

running_found : get_session "g1" table_one ≡ some running
unfolding get_session
running_found = refl

hero-IsKeyed : IsKeyed (lookup_or "g1" [] table_one.players)
unfolding lookup_or
hero-IsKeyed = (refl, refl, tt)

table_saved : (save_to_slot "g1" 2 "noon" table_one).1 ≡ saved
unfolding save_to_slot get_session lookup has_key players_data player_to_dict values lookup_or
    contains
table_saved = refl

later_config : later.config ≡ table_one.config
unfolding save_to_slot end_session end_found save_session get_session lookup has_key players_data
    player_to_dict values lookup_or contains write_file
later_config = refl

later_file :
    lookup (slot_path "g1" 2) later.files
    ≡ lookup (slot_path "g1" 2) (save_to_slot "g1" 2 "noon" table_one).0.files
unfolding save_to_slot end_session end_found save_session get_session lookup has_key players_data
    player_to_dict values lookup_or contains write_file insert has_active_session active_in erase
    trim_history add_history mark_summary add_history_as path_beq
later_file = refl

later_idle : has_active_session "g1" later ≡ false
unfolding save_to_slot end_session end_found save_session get_session lookup has_key players_data
    player_to_dict values lookup_or contains write_file insert has_active_session active_in erase
    trim_history add_history mark_summary add_history_as
later_idle = refl

load_from_slot-save_to_slot_example :
    let (u, reply) = load_from_slot "g1" 2 9 later in
    (reply ≡ loaded)
    × (get_session "g1" u
        ≡ some (trim_history 100 9 (record running { stream_id = "g1"; status = "active" })).0)
    × ((w : String)
        → get_player "g1" w u ≡ restored "g1" w (lookup_or "g1" [] table_one.players) none)
load_from_slot-save_to_slot_example =
    load_from_slot-save_to_slot "g1" 2 9 "noon" table_one later running running_found hero-IsKeyed
      table_saved later_config later_file later_idle

create_player_joins_example :
    let (t, player) = create_player "g1" "u2" "Bram" none 5 table_one in
    ((w : String)
      → get_player "g1" w t ≡ (if "u2" == w then some player else get_player "g1" w table_one))
    × ((s : TrpgSession)
        → get_session "g1" table_one ≡ some s
        → s.stream_id ≡ "g1"
        → contains "u2" (members "g1" t) ≡ true)
create_player_joins_example = create_player_joins "g1" "u2" "Bram" none 5 table_one

hero_alone : HasDistinctKeys (lookup_or "g1" [] table_one.players)
unfolding lookup_or lookup
hero_alone = (refl, tt)

delete_player_leaves_example :
    let (t, done) = delete_player "g1" "u1" 5 table_one in
    (done ≡ is_some (get_player "g1" "u1" table_one))
    × (done ≡ false → t ≡ table_one)
    × (get_player "g1" "u1" t ≡ none)
    × ((w : String) → "u1" ≢ w → get_player "g1" w t ≡ get_player "g1" w table_one)
    × ((s : TrpgSession)
        → done ≡ true
        → get_session "g1" table_one ≡ some s
        → s.stream_id ≡ "g1"
        → IsDistinct s.player_ids
        → contains "u1" (members "g1" t) ≡ false)
delete_player_leaves_example = delete_player_leaves "g1" "u1" 5 table_one hero_alone

create_session-end_session_example :
    let t = (create_session "g1" "Avalon" 7 (end_session "g1" 6 table_one).0).0 in
    ((w : String) → get_player "g1" w t ≡ get_player "g1" w table_one) × (members "g1" t ≡ [])
create_session-end_session_example = create_session-end_session "g1" "Avalon" 6 7 table_one

no_files-HoldsOwn : HoldsOwn 5 []
unfolding lookup
no_files-HoldsOwn id content s e read = absurd (cc e)

restart-save_session_example :
    let t = save_session 9 running table_one in
    ((id : String)
      → get_session id (restart 5 t) ≡ (
          if "g1" == id
          then unless_ended (some (trim_history 100 9 running).0)
          else get_session id (restart 5 table_one)))
    × HasDistinctKeys t.files
    × HoldsOwn 5 t.files
unfolding add_history mark_summary
restart-save_session_example = restart-save_session 5 9 running table_one tt no_files-HoldsOwn

restarted : has_active_session "g1" (restart 5 (save_all 9 table_one).0) ≡ true
unfolding has_active_session active_in get_session initialize new_storage save_all path_beq
    add_history mark_summary has_key
restarted = refl
