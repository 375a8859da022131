-- ===== src/Commands/Life.antt =====
-- The commands of components/commands.py, one after the other, and the state machine.
use mai_bot_trpg_plugin.Prelude.{ℕ, String, ◌≡◌, refl, Option, none, List, [], ◌∷◌, string_eq}
use mai_bot_trpg_plugin.Storage.Defs.{Storage, Config, new_storage, get_session}
use mai_bot_trpg_plugin.Prelude.Dict.{lookup}
use mai_bot_trpg_plugin.Storage.Files.{Files}
use mai_bot_trpg_plugin.Commands.Defs.{Caller, Settings}
use mai_bot_trpg_plugin.Commands.Status.{status_in, status_of, Reaches}
use mai_bot_trpg_plugin.Commands.Machine.{
  Command, begin, finish, store, hold, go_on, come_in, execute, next,
}
use mai_bot_trpg_plugin.Commands.Moves.{
  save-Reaches, pause-Reaches, resume-Reaches, end-Reaches, start-Reaches, join-Reaches,
}

-- Every command takes the session of its stream where the state machine says, whatever the players
-- and the files are: starting needs an allowed group, a name and no active session, ending needs the
-- permission, pausing needs a session and resuming a paused one, saving and joining change nothing.
-- It keeps the session under its own id, and the configuration.
pub execute-Reaches :
    (c : Caller) (settings : Settings) (config : Config) (command : Command) (o : Option String)
    (st : Storage)
    → Reaches c.stream_id config o st
    → Reaches c.stream_id config
        (next c settings config command o)
        (execute c settings command st).0
unfolding execute
execute-Reaches c settings config (begin args loader) o st h =
    start-Reaches c settings config st h args loader
execute-Reaches c settings config finish o st h = unfold next in end-Reaches c settings config st h
execute-Reaches c settings config store o st h = unfold next in save-Reaches c settings config st h
execute-Reaches c settings config hold o st h = unfold next in pause-Reaches c settings config st h
execute-Reaches c settings config go_on o st h =
    unfold next in resume-Reaches c settings config st h
execute-Reaches c settings config (come_in name) o st h =
    unfold next in join-Reaches c settings config st h name

-- The commands of one stream, each with its user and its times.
unfoldable pub execute_all :
    String → Settings → List (String × ℕ × String × Command) → Storage → Storage
unfolding execute
execute_all stream_id settings [] st = st
execute_all stream_id settings ((user_id, now, stamp, command) ∷ rest) st =
    let c : Caller = record {
      stream_id = stream_id;
      user_id = user_id;
      now = now;
      stamp = stamp;
    } in
    execute_all stream_id settings rest (execute c settings command st).0

unfoldable pub next_all :
    String
    → Settings
    → Config
    → List (String × ℕ × String × Command)
    → Option String
    → Option String
unfolding next
next_all stream_id settings config [] o = o
next_all stream_id settings config ((user_id, now, stamp, command) ∷ rest) o =
    let c : Caller = record {
      stream_id = stream_id;
      user_id = user_id;
      now = now;
      stamp = stamp;
    } in
    next_all stream_id settings config rest (next c settings config command o)

execute_all-Reaches :
    (stream_id : String) (settings : Settings) (config : Config)
    (commands : List (String × ℕ × String × Command)) (o : Option String) (st : Storage)
    → Reaches stream_id config o st
    → Reaches stream_id config
        (next_all stream_id settings config commands o)
        (execute_all stream_id settings commands st)
unfolding execute_all next_all
execute_all-Reaches stream_id settings config [] o st h = h
execute_all-Reaches stream_id settings config ((user_id, now, stamp, command) ∷ rest) o st h =
    let c : Caller = record {
      stream_id = stream_id;
      user_id = user_id;
      now = now;
      stamp = stamp;
    } in
    execute_all-Reaches stream_id settings config rest (next c settings config command o)
      (execute c settings command st).0 (execute-Reaches c settings config command o st h)

new_storage-Reaches :
    (stream_id : String) (config : Config) (files : Files)
    → Reaches stream_id config none (new_storage config files)
unfolding new_storage get_session lookup status_in
new_storage-Reaches stream_id config files = record {
  filed = record { distinct = tt; own = λ s found. absurd (cc found) };
  status = refl;
  settings = refl;
}

-- From a fresh storage, over whatever files, every sequence of start, end, save, pause, resume and
-- join commands of a stream leaves its session with the status that the state machine gives: none
-- where it was ended or never started.
pub status-execute_all :
    (stream_id : String) (settings : Settings) (config : Config) (files : Files)
    (commands : List (String × ℕ × String × Command))
    → status_of stream_id (execute_all stream_id settings commands (new_storage config files))
      ≡ next_all stream_id settings config commands none
status-execute_all stream_id settings config files commands =
    let h =
      execute_all-Reaches stream_id settings config commands none (new_storage config files)
        (new_storage-Reaches stream_id config files) in
    h.status
