-- ===== src/Handlers/Execute.antt =====
-- `execute` of components/handlers.py: what a message of a chat does, and whether other plugins get it.
use Prim.Native.Char.{code}
use mai_bot_trpg_plugin.Prelude.{
  ℕ, String, Bool, true, false, not, ◌&&◌, ◌||◌, Option, none, some, List, [], ◌∷◌, ◌++◌, length,
  leb, nat_beq, string_eq, ◌==◌, if◌then◌else◌, is_some,
}
use mai_bot_trpg_plugin.Prelude.Chars.{lower}
use mai_bot_trpg_plugin.Json.{obj, end}
use mai_bot_trpg_plugin.Player.Defs.{Player}
use mai_bot_trpg_plugin.Session.Defs.{TrpgSession, add_history_as, is_active}
use mai_bot_trpg_plugin.Storage.Defs.{
  get_session, is_group_enabled, get_player, get_pending_join, save_session,
}
use mai_bot_trpg_plugin.Dice.Parse.{is_white}
use mai_bot_trpg_plugin.DmEngine.Story.{starts_with}
use mai_bot_trpg_plugin.Handlers.Reading.{
  is_roleplay_message, should_dm_respond, generate_action_acknowledgment,
}
use mai_bot_trpg_plugin.Handlers.Rounds.{
  Table, Sent, acknowledged, recorded, answer_one, handle_multiplayer_action,
}

-- What the handler reads of the configuration.
pub record Settings : Type 0 where
  pub takeover_message : Bool
  pub block_other_plugins : Bool
  pub allow_mid_join : Bool
  pub mid_join_require_confirm : Bool
  pub show_action_feedback : Bool
  pub auto_narrative : Bool
  pub batch_actions : Bool
  pub process_when_all_ready : Bool

-- A message; the user id is empty where the message names no user.
pub record Message : Type 0 where
  pub stream_id : String
  pub plain_text : String
  pub user_id : String

-- The table afterwards, what is sent, and whether the message goes on to other handlers.
pub record Handled : Type 0 where
  pub table : Table
  pub sent : List Sent
  pub continues : Bool

abbrev pub untouched : Bool → Table → Handled
untouched continues t = record { table = t; sent = []; continues = continues }

-- A word at the beginning of a text, with nothing or white space behind it.
unfoldable pub is_command : String → String → Bool
unfolding is_white
is_command String.[] String.[] = true
is_command String.[] (String.◌∷◌ c s) = is_white c
is_command (String.◌∷◌ c p) String.[] = false
is_command (String.◌∷◌ c p) (String.◌∷◌ d s) = nat_beq (code c) (code d) && is_command p s

unfoldable pub is_trpg_command : String → Bool
unfolding is_command lower
is_trpg_command text =
    let s = lower text in is_command "/trpg" s || is_command "/r" s || is_command "/roll" s

unfoldable pub handle_command : Settings → String → Table → Handled
unfolding is_trpg_command
handle_command cfg text t =
    if is_trpg_command text
    then untouched (not cfg.block_other_plugins) t
    else untouched (not cfg.takeover_message) t

abbrev pub name_of : Option Player → String
name_of none = "旁观者"
name_of (some p) = p.character_name

-- `auto_narrative`: the answer of the game master, or the round of the players.
unfoldable pub narrate : Settings → Message → ℕ → ℕ → Option Player → Table → Table × List Sent
unfolding handle_multiplayer_action
narrate cfg msg now player_count player t =
    if not cfg.auto_narrative
    then (t, recorded (name_of player) ∷ [])
    else if cfg.batch_actions && leb 2 player_count
    then handle_multiplayer_action cfg.process_when_all_ready msg.stream_id msg.user_id
        (name_of player) msg.plain_text now t
    else (t, answer_one msg.plain_text player ∷ [])

abbrev pub feedback : Settings → String → String → List Sent
feedback cfg text name =
    let ack = generate_action_acknowledgment text name in
    if cfg.show_action_feedback && not (ack == "") then acknowledged ack ∷ [] else []

-- A message that is recorded and answered.
unfoldable pub respond : Settings → Message → ℕ → TrpgSession → Option Player → Table → Handled
unfolding add_history_as save_session generate_action_acknowledgment narrate
respond cfg msg now s player t =
    let entered =
      add_history_as "player" msg.plain_text (some msg.user_id) (some (name_of player)) (obj end)
        now s in
    let saved : Table = record t { storage = save_session now entered t.storage } in
    let (done, sent) = narrate cfg msg now (length s.player_ids) player saved in
    record {
      table = done;
      sent = feedback cfg msg.plain_text (name_of player) ++ sent;
      continues = not cfg.takeover_message;
    }

-- A request to join that waits, with a name.
abbrev pub is_named : Option String → Bool
is_named none = false
is_named (some name) = not (name == "")

unfoldable pub handle_player :
    Settings → Message → ℕ → TrpgSession → Option Player → Table → Handled
unfolding get_pending_join is_roleplay_message should_dm_respond respond
handle_player cfg msg now s player t =
    if not (is_some player) && not cfg.allow_mid_join
    then untouched (not cfg.takeover_message) t
    else if not (is_some player)
        && cfg.mid_join_require_confirm
        && is_named (get_pending_join msg.stream_id msg.user_id t.storage)
    then untouched (not cfg.takeover_message) t
    else if is_roleplay_message msg.plain_text
        || is_some player && should_dm_respond msg.plain_text s
    then respond cfg msg now s player t
    else untouched (not cfg.takeover_message) t

unfoldable pub handle_in : Settings → Message → ℕ → Option TrpgSession → Table → Handled
unfolding is_active starts_with handle_command get_player handle_player
handle_in cfg msg now none t = untouched true t
handle_in cfg msg now (some s) t =
    if not (is_active s) || msg.plain_text == ""
    then untouched true t
    else if starts_with "/" msg.plain_text
    then handle_command cfg msg.plain_text t
    else if msg.user_id == ""
    then untouched true t
    else handle_player cfg msg now s (get_player msg.stream_id msg.user_id t.storage) t

unfoldable pub execute : Settings → Message → ℕ → Table → Handled
unfolding is_group_enabled get_session handle_in
execute cfg msg now t =
    if msg.stream_id == "" || not (is_group_enabled msg.stream_id t.storage)
    then untouched true t
    else handle_in cfg msg now (get_session msg.stream_id t.storage) t
