-- ===== src/Storage/Defs.antt =====
-- class StorageManager of models/storage.py: groups, sessions, players and pending joins. A session
-- or a player object is the entry of the cache: who changes it changes the entry, and
-- `save_session` trims the entry before it writes. `now` is `time.time()` at the call. The lock is
-- not modelled: each method runs as a whole.
use mai_bot_trpg_plugin.Prelude.{
  ℕ, String, Bool, true, false, not, Option, none, some, List, [], ◌∷◌, ◌++◌, contains, remove,
  string_eq, if◌then◌else◌, is_some,
}
use mai_bot_trpg_plugin.Prelude.Int.{ℤ, pos}
use mai_bot_trpg_plugin.Prelude.Dict.{Dict, lookup, lookup_or, insert, erase, values}
use mai_bot_trpg_plugin.Json.{Value, text, arr, obj, end, ◌>>=◌, to_items}
use mai_bot_trpg_plugin.Player.Defs.{Player}
use mai_bot_trpg_plugin.Player.Codec.{player_to_dict}
use mai_bot_trpg_plugin.Session.Defs.{
  TrpgSession, new_session, add_player, remove_player, is_active, trim_history,
}
use mai_bot_trpg_plugin.Session.Codec.{session_to_dict}
use mai_bot_trpg_plugin.Storage.Files.{
  FilePath, enabled_groups, session_file, player_file, path_eq, Files,
}

-- What the storage reads of the configuration; a `max_history_length` of 0 is none.
pub record Config : Type 0 where
  pub allowed_groups : List String
  pub max_slots : ℕ
  pub allow_overwrite : Bool
  pub max_history_length : ℕ
  pub default_free_points : ℤ
  pub base_attribute : ℤ
  pub default_max_hp : ℤ
  pub default_max_mp : ℤ

pub record Storage : Type 0 where
  pub config : Config
  pub sessions : Dict String TrpgSession
  pub players : Dict String (Dict String Player)
  pub groups : List String
  pub pending_joins : Dict String (Dict String String)
  pub files : Files

-- `__init__` over the files that are there.
unfoldable pub new_storage : Config → Files → Storage
new_storage config files = record {
  config = config;
  sessions = [];
  players = [];
  groups = [];
  pending_joins = [];
  files = files;
}

unfoldable pub update_config : Config → Storage → Storage
update_config config st = record st { config = config }

unfoldable pub write_file : FilePath → Option Value → Storage → Storage
unfolding insert
write_file path content st = record st { files = insert path content st.files }

-- Groups.

unfoldable pub save_enabled_groups : Storage → Storage
unfolding write_file to_items
save_enabled_groups st = write_file enabled_groups (some (arr (to_items text st.groups))) st

-- An empty list of groups allows every group.
unfoldable pub allowed_in : List String → String → Bool
unfolding contains
allowed_in [] stream_id = true
allowed_in (a ∷ as_) stream_id = contains stream_id (a ∷ as_)

unfoldable pub is_group_allowed : String → Storage → Bool
unfolding allowed_in
is_group_allowed stream_id st = allowed_in st.config.allowed_groups stream_id

unfoldable pub is_group_enabled : String → Storage → Bool
is_group_enabled stream_id st = contains stream_id st.groups

unfoldable pub enable_group : String → Storage → Storage × Bool
unfolding is_group_allowed is_group_enabled save_enabled_groups
enable_group stream_id st =
    if not (is_group_allowed stream_id st)
    then (st, false)
    else if is_group_enabled stream_id st
    then (st, true)
    else (save_enabled_groups (record st { groups = st.groups ++ stream_id ∷ [] }), true)

unfoldable pub disable_group : String → Storage → Storage
unfolding is_group_enabled save_enabled_groups
disable_group stream_id st =
    if is_group_enabled stream_id st
    then save_enabled_groups (record st { groups = remove stream_id st.groups })
    else st

-- Sessions.

unfoldable pub get_session : String → Storage → Option TrpgSession
unfolding lookup
get_session stream_id st = lookup stream_id st.sessions

-- The object is trimmed where it lies in the cache, and written.
unfoldable pub save_session : ℕ → TrpgSession → Storage → Storage
unfolding trim_history insert session_to_dict
save_session now session st =
    let trimmed = (trim_history st.config.max_history_length now session).0 in
    record st {
      sessions = insert trimmed.stream_id trimmed st.sessions;
      files =
          insert (session_file trimmed.stream_id) (some (obj (session_to_dict trimmed))) st.files;
    }

unfoldable pub create_session : String → String → ℕ → Storage → Storage × TrpgSession
unfolding save_session enable_group
create_session stream_id world_name now st =
    let session = new_session stream_id world_name now in
    ((enable_group stream_id (save_session now session st)).0, session)

-- The rest of `end_session`, from the session that was looked up.
unfoldable pub end_found : String → ℕ → Option TrpgSession → Storage → Storage × Bool
unfolding save_session erase
end_found stream_id now none st = (st, false)
end_found stream_id now (some session) st =
    let saved = save_session now (record session { status = "ended" }) st in
    (record saved { sessions = erase stream_id saved.sessions }, true)

unfoldable pub end_session : String → ℕ → Storage → Storage × Bool
unfolding get_session end_found
end_session stream_id now st = end_found stream_id now (get_session stream_id st) st

unfoldable pub active_in : Option TrpgSession → Bool
unfolding is_active
active_in none = false
active_in (some session) = is_active session

unfoldable pub has_active_session : String → Storage → Bool
unfolding get_session active_in
has_active_session stream_id st = active_in (get_session stream_id st)

unfoldable pub active_of : List TrpgSession → List TrpgSession
unfolding is_active
active_of [] = []
active_of (s ∷ ss) = if is_active s then s ∷ active_of ss else active_of ss

unfoldable pub get_active_sessions : Storage → List TrpgSession
unfolding active_of values
get_active_sessions st = active_of (values st.sessions)

-- Pending joins.

unfoldable pub add_pending_join : String → String → String → Storage → Storage
unfolding insert lookup_or
add_pending_join stream_id user_id character_name st = record st {
  pending_joins =
      insert stream_id (insert user_id character_name (lookup_or stream_id [] st.pending_joins))
        st.pending_joins;
}

unfoldable pub get_pending_join : String → String → Storage → Option String
unfolding lookup
get_pending_join stream_id user_id st = do
  joins ← lookup stream_id st.pending_joins
  lookup user_id joins

-- `remove_pending_join` from the requests of the stream on.
unfoldable pub pop_join :
    String → String → Option (Dict String String) → Storage → Storage × Option String
unfolding lookup insert erase
pop_join stream_id user_id none st = (st, none)
pop_join stream_id user_id (some joins) st = (
  record st { pending_joins = insert stream_id (erase user_id joins) st.pending_joins },
  lookup user_id joins,
)

unfoldable pub remove_pending_join : String → String → Storage → Storage × Option String
unfolding lookup pop_join
remove_pending_join stream_id user_id st =
    pop_join stream_id user_id (lookup stream_id st.pending_joins) st

unfoldable pub get_all_pending_joins : String → Storage → Dict String String
unfolding lookup_or
get_all_pending_joins stream_id st = lookup_or stream_id [] st.pending_joins

-- Players.

unfoldable pub get_player : String → String → Storage → Option Player
unfolding lookup
get_player stream_id user_id st = do members ← lookup stream_id st.players; lookup user_id members

-- The player object in the cache.
unfoldable pub put_player : String → Player → Storage → Storage
unfolding insert lookup_or
put_player stream_id player st = record st {
  players =
      insert stream_id (insert player.user_id player (lookup_or stream_id [] st.players))
        st.players;
}

-- The file is emptied before `to_dict` is called; `false` is the exception of `to_dict`.
unfoldable pub save_player : Player → Storage → Storage × Bool
unfolding write_file player_to_dict
save_player player st =
    let content = player_to_dict player in
    (write_file (player_file player.stream_id player.user_id) content st, is_some content)

-- The character that `create_player` builds; `free_points` is an argument that may be left out.
unfoldable pub new_player : String → String → String → Option ℤ → ℕ → Config → Player
new_player stream_id user_id character_name free_points now config = record {
  user_id = user_id;
  stream_id = stream_id;
  character_name = character_name;
  attributes = record {
    str_value = config.base_attribute;
    dex_value = config.base_attribute;
    con_value = config.base_attribute;
    int_value = config.base_attribute;
    wis_value = config.base_attribute;
    cha_value = config.base_attribute;
    overwritten = [];
  };
  hp_current = config.default_max_hp;
  hp_max = config.default_max_hp;
  mp_current = config.default_max_mp;
  mp_max = config.default_max_mp;
  level = pos 1;
  experience = pos 0;
  inventory = [];
  skills = [];
  notes = "";
  created_at = now;
  updated_at = now;
  custom_data = obj end;
  free_points = elim free_points [ none ↦ config.default_free_points | some n ↦ n ];
  points_allocated = [];
  character_locked = false;
}

-- The last step of `create_player` and of `delete_player`: where there is a session, the member is
-- added to it or removed from it, and it is saved.
unfoldable pub save_members :
    ℕ → (TrpgSession → TrpgSession) → Option TrpgSession → Storage → Storage
unfolding save_session
save_members now update none st = st
save_members now update (some session) st = save_session now (update session) st

unfoldable pub create_player : String → String → String → Option ℤ → ℕ → Storage → Storage × Player
unfolding new_player put_player save_player get_session add_player save_members
create_player stream_id user_id character_name free_points now st =
    let player = new_player stream_id user_id character_name free_points now st.config in
    let saved = (save_player player (put_player stream_id player st)).0 in
    (save_members now (add_player user_id now) (get_session stream_id saved) saved, player)

-- The branch of `delete_player` for a player that is there.
unfoldable pub drop_player : String → String → ℕ → Storage → Storage
unfolding lookup_or insert erase get_session remove_player save_members
drop_player stream_id user_id now st =
    let rest = erase user_id (lookup_or stream_id [] st.players) in
    let gone : Storage = record st {
      players = insert stream_id rest st.players;
      files = erase (player_file stream_id user_id) st.files;
    } in
    save_members now (remove_player user_id now) (get_session stream_id gone) gone

unfoldable pub delete_player : String → String → ℕ → Storage → Storage × Bool
unfolding get_player drop_player
delete_player stream_id user_id now st =
    if is_some (get_player stream_id user_id st)
    then (drop_player stream_id user_id now st, true)
    else (st, false)

unfoldable pub get_players_in_session : String → Storage → List Player
unfolding lookup_or values
get_players_in_session stream_id st = values (lookup_or stream_id [] st.players)

-- Lore.

unfoldable pub get_lore : String → Storage → List String
unfolding get_session
get_lore stream_id st = elim (get_session stream_id st) [ none ↦ [] | some s ↦ s.lore ]

unfoldable pub add_lore : String → String → ℕ → Storage → Storage × Bool
unfolding get_session save_session
add_lore stream_id entry now st = elim (get_session stream_id st) [
  | none ↦ (st, false)
  | some s ↦ (save_session now (record s { lore = s.lore ++ entry ∷ [] }) st, true)
]
