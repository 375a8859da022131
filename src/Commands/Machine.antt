-- ===== src/Commands/Machine.antt =====
-- The life of a session as a state machine over its status, and the commands of
-- components/commands.py that drive it.
use mai_bot_trpg_plugin.Prelude.{
  String, Bool, false, not, ◌&&◌, ◌||◌, Option, none, some, ◌==◌, string_eq, if◌then◌else◌,
}
use mai_bot_trpg_plugin.Storage.Defs.{Storage, Config, allowed_in}
use mai_bot_trpg_plugin.Modules.Loader.{ModuleLoader}
use mai_bot_trpg_plugin.Commands.Defs.{Caller, Settings, Reply, is_admin}
use mai_bot_trpg_plugin.Commands.Play.{start, end_, save, pause, resume}
use mai_bot_trpg_plugin.Commands.Join.{join}

pub data Command : Type 0 where
  begin : (args : String) (loader : ModuleLoader) → Command
  finish store hold go_on : Command
  come_in : (name : String) → Command

unfoldable pub execute : Caller → Settings → Command → Storage → Storage × Reply
unfolding start end_ save pause resume join
execute c settings (begin args loader) st = start c args loader st
execute c settings finish st = end_ c settings st
execute c settings store st = save c st
execute c settings hold st = pause c st
execute c settings go_on st = resume c st
execute c settings (come_in name) st = join c settings name st

unfoldable pub is_status : String → Option String → Bool
is_status w none = false
is_status w (some s) = s == w

-- Pausing takes every session to "paused".
unfoldable pub paused_from : Option String → Option String
paused_from none = none
paused_from (some s) = some "paused"

-- The state machine: the status behind a command, from the status before it.
unfoldable pub next : Caller → Settings → Config → Command → Option String → Option String
unfolding is_status is_admin
next c settings config (begin args loader) o =
    if is_status "active" o
    then o
    else if allowed_in config.allowed_groups c.stream_id && not (args == "")
    then some "active"
    else o
next c settings config finish o =
    if settings.allow_player_end_session || is_admin c.user_id settings then none else o
next c settings config store o = o
next c settings config hold o = paused_from o
next c settings config go_on o = if is_status "paused" o then some "active" else o
next c settings config (come_in name) o = o
