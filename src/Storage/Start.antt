-- ===== src/Storage/Start.antt =====
-- `initialize`, `save_all` and `search_lore` of models/storage.py. The files are read in the order of
-- the store; `now` is the default of the times that a file leaves out.
use mai_bot_trpg_plugin.Prelude.{
  ℕ, String, Bool, true, false, Option, none, some, List, [], ◌∷◌, string_eq, ◌==◌, if◌then◌else◌,
}
use mai_bot_trpg_plugin.Prelude.Dict.{Dict, lookup, lookup_or, insert, values}
use mai_bot_trpg_plugin.Prelude.Chars.{lower}
use mai_bot_trpg_plugin.Json.{Value, ◌>>=◌, as_text, as_list, as_obj}
use mai_bot_trpg_plugin.Player.Defs.{Player}
use mai_bot_trpg_plugin.Player.Codec.{player_from_dict}
use mai_bot_trpg_plugin.Session.Defs.{TrpgSession}
use mai_bot_trpg_plugin.Session.Codec.{session_from_dict}
use mai_bot_trpg_plugin.Storage.Files.{
  enabled_groups, session_file, player_file, slot_file, path_eq, Files,
}
use mai_bot_trpg_plugin.Storage.Defs.{
  Storage, new_storage, get_lore, save_session, save_player, save_enabled_groups,
}
use mai_bot_trpg_plugin.DmEngine.Story.{occurs}

-- A file that is there and holds a list of texts, and the list of groups as it was where there is no
-- file.
unfoldable pub read_groups : List String → Option (Option Value) → List String
unfolding as_list
read_groups groups none = groups
read_groups groups (some none) = []
read_groups groups (some (some v)) = elim (as_list as_text v) [ none ↦ [] | some gs ↦ gs ]

unfoldable pub load_enabled_groups : Storage → Storage
unfolding read_groups lookup
load_enabled_groups st = record st {
  groups = read_groups st.groups (lookup enabled_groups st.files);
}

-- The session of a file, where it can be read and has not ended.
unfoldable pub unless_ended : Option TrpgSession → Option TrpgSession
unless_ended none = none
unless_ended (some s) = if s.status == "ended" then none else some s

unfoldable pub read_session : ℕ → Option Value → Option TrpgSession
unfolding session_from_dict unless_ended
read_session now content =
    unless_ended (content >>= λ v. as_obj v >>= λ fs. session_from_dict now fs)

unfoldable pub keep_session : Option TrpgSession → Dict String TrpgSession → Dict String TrpgSession
unfolding insert
keep_session none d = d
keep_session (some s) d = insert s.stream_id s d

unfoldable pub load_all_sessions : ℕ → Files → Dict String TrpgSession → Dict String TrpgSession
unfolding read_session keep_session
load_all_sessions now [] d = d
load_all_sessions now ((session_file stream_id, content) ∷ files) d =
    load_all_sessions now files (keep_session (read_session now content) d)
load_all_sessions now ((enabled_groups, content) ∷ files) d = load_all_sessions now files d
load_all_sessions now ((player_file stream_id user_id, content) ∷ files) d =
    load_all_sessions now files d
load_all_sessions now ((slot_file safe_id slot, content) ∷ files) d = load_all_sessions now files d

-- The characters of a stream lie in its directory, under the user that the file names.
unfoldable pub keep_loaded :
    String → Option Player → Dict String (Dict String Player) → Dict String (Dict String Player)
unfolding insert lookup_or
keep_loaded stream_id none d = insert stream_id (lookup_or stream_id [] d) d
keep_loaded stream_id (some p) d =
    insert stream_id (insert p.user_id p (lookup_or stream_id [] d)) d

unfoldable pub load_all_players :
    ℕ → Files → Dict String (Dict String Player) → Dict String (Dict String Player)
unfolding player_from_dict keep_loaded
load_all_players now [] d = d
load_all_players now ((player_file stream_id user_id, content) ∷ files) d =
    load_all_players now files (keep_loaded stream_id (content >>= player_from_dict now) d)
load_all_players now ((enabled_groups, content) ∷ files) d = load_all_players now files d
load_all_players now ((session_file stream_id, content) ∷ files) d = load_all_players now files d
load_all_players now ((slot_file safe_id slot, content) ∷ files) d = load_all_players now files d

unfoldable pub initialize : ℕ → Storage → Storage
unfolding load_enabled_groups load_all_sessions load_all_players
initialize now st =
    let grouped = load_enabled_groups st in
    record grouped {
      sessions = load_all_sessions now st.files st.sessions;
      players = load_all_players now st.files st.players;
    }

-- The plugin is stopped and started again: what remains are the files.
abbrev pub restart : ℕ → Storage → Storage
restart now st = initialize now (new_storage st.config st.files)

unfoldable pub save_sessions : ℕ → List TrpgSession → Storage → Storage
unfolding save_session
save_sessions now [] st = st
save_sessions now (s ∷ ss) st = save_sessions now ss (save_session now s st)

-- `false` is an exception of `to_dict`, behind which nothing more is saved.
unfoldable pub save_players : List Player → Storage → Storage × Bool
unfolding save_player
save_players [] st = (st, true)
save_players (p ∷ ps) st =
    let (t, saved) = save_player p st in
    let rest = save_players ps t in if saved then rest else (t, false)

unfoldable pub save_streams : List (Dict String Player) → Storage → Storage × Bool
unfolding save_players values
save_streams [] st = (st, true)
save_streams (d ∷ ds) st =
    let (t, saved) = save_players (values d) st in
    let rest = save_streams ds t in if saved then rest else (t, false)

unfoldable pub save_all : ℕ → Storage → Storage × Bool
unfolding save_sessions save_streams save_enabled_groups values
save_all now st =
    let saved = save_sessions now (values st.sessions) st in
    let (t, done) = save_streams (values st.players) saved in
    if done then (save_enabled_groups t, true) else (t, false)

-- The entries in which the keyword occurs, in any case.
unfoldable pub matching : String → List String → List String
unfolding occurs lower
matching keyword [] = []
matching keyword (entry ∷ entries) =
    let rest = matching keyword entries in
    if occurs (lower keyword) (lower entry) then entry ∷ rest else rest

unfoldable pub search_lore : String → String → Storage → List String
unfolding get_lore matching
search_lore stream_id keyword st = matching keyword (get_lore stream_id st)
