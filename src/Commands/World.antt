-- ===== src/Commands/World.antt =====
-- `_dm` and `_lore` of components/commands.py. What the language model answers is an argument. The
-- argument text is split into the action and the value.
use mai_bot_trpg_plugin.Prelude.{
  String, ◌≡◌, refl, not, ◌&&◌, Option, none, some, ◌==◌, string_eq, if◌then◌else◌,
}
use mai_bot_trpg_plugin.Prelude.Chars.{lower, ◌+++◌}
use mai_bot_trpg_plugin.Prelude.Dict.{has_key, insert}
use mai_bot_trpg_plugin.Session.World.{WorldState}
use mai_bot_trpg_plugin.Session.Defs.{TrpgSession, add_history, add_npc}
use mai_bot_trpg_plugin.Storage.Defs.{Storage, get_session, save_session, add_lore}
use mai_bot_trpg_plugin.Commands.Defs.{Caller, Settings, Reply, silent, failed, is_admin}
use mai_bot_trpg_plugin.Commands.Words.{split_first}

-- The session object in the cache is changed, and nothing is written.
unfoldable pub put_session : TrpgSession → Storage → Storage
unfolding insert
put_session session st = record st { sessions = insert session.stream_id session st.sessions }

-- A change of the world, with its entry.
unfoldable pub set_world : Caller → WorldState → String → TrpgSession → Storage → Storage
unfolding add_history save_session
set_world c world entry session st =
    save_session c.now (add_history "system" entry c.now (record session { world_state = world }))
      st

unfoldable pub with_npc : Caller → String → TrpgSession → TrpgSession
unfolding has_key add_npc
with_npc c name session = if has_key name session.npcs then session else add_npc name c.now session

unfoldable pub tell : Caller → String → TrpgSession → Storage → Storage
unfolding add_history save_session
tell c content session st = save_session c.now (add_history "dm" content c.now session) st

-- The branch `npc`: without an action the new NPC stays in memory.
unfoldable pub dm_npc : Caller → String → String × String → TrpgSession → Storage → Storage
unfolding with_npc put_session tell
dm_npc c response (npc_name, npc_action) session st =
    if npc_action == ""
    then put_session (with_npc c npc_name session) st
    else tell c response (with_npc c npc_name session) st

-- The branches that take a value.
unfoldable pub dm_value : Caller → String → String → String → TrpgSession → Storage → Storage
unfolding set_world dm_npc split_first tell
dm_value c response action value session st =
    if action == "time"
    then set_world c (record session.world_state { time_of_day = value }) ("时间变为: " +++ value)
        session st
    else if action == "weather"
    then set_world c (record session.world_state { weather = value }) ("天气变为: " +++ value) session
        st
    else if action == "location"
    then set_world c (record session.world_state { location = value }) ("场景转换: " +++ value) session
        st
    else if action == "npc"
    then dm_npc c response (split_first value) session st
    else if action == "event"
    then tell c ("[事件] " +++ value) session st
    else st

unfoldable pub dm_with :
    Caller → String → String → String → Option TrpgSession → Storage → Storage × Reply
unfolding dm_value tell
dm_with c response action value none st = (st, failed "无会话")
dm_with c response action value (some session) st =
    if action == "describe"
    then (tell c response session st, silent)
    else if value == ""
    then (st, silent)
    else (dm_value c response action value session st, silent)

unfoldable pub dm : Caller → Settings → String → String → Storage → Storage × Reply
unfolding is_admin get_session split_first lower dm_with
dm c settings response args st =
    if is_admin c.user_id settings
    then (let (action, value) = split_first args in
        dm_with c response (lower action) value (get_session c.stream_id st) st)
    else (st, failed "权限不足")

unfoldable pub lore_with : Caller → String → String → Option TrpgSession → Storage → Storage × Reply
unfolding add_lore
lore_with c action content none st = (st, failed "无会话")
lore_with c action content (some session) st =
    if action == "add" && not (content == "")
    then ((add_lore c.stream_id content c.now st).0, silent)
    else (st, silent)

unfoldable pub lore : Caller → String → Storage → Storage × Reply
unfolding get_session split_first lower lore_with
lore c args st =
    let (action, content) = split_first args in
    lore_with c (lower action) content (get_session c.stream_id st) st

split_first_example : split_first "npc  Bram waves back" ≡ ("npc", "Bram waves back")
unfolding split_first
split_first_example = refl
