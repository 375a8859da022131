-- ===== src/Commands/Defs.antt =====
-- What every handler of components/commands.py has: the caller, the settings it reads and the
-- triple that it returns. The texts that it sends are output and left out.
use mai_bot_trpg_plugin.Prelude.{
  ℕ, String, Bool, true, false, Option, none, some, List, string_eq, contains,
}
use mai_bot_trpg_plugin.Prelude.Int.{ℤ}
use mai_bot_trpg_plugin.Player.Defs.{Refusal}
use mai_bot_trpg_plugin.Storage.SlotDefs.{SlotReply}

-- The message: its stream, its user, and the clock and the formatted time when it is handled.
pub record Caller : Type 0 where
  pub stream_id : String
  pub user_id : String
  pub now : ℕ
  pub stamp : String

-- `_plugin_config`
pub record Settings : Type 0 where
  pub admin_users : List String
  pub allow_player_end_session : Bool
  pub allow_mid_join : Bool
  pub mid_join_require_confirm : Bool
  pub min_attribute : ℤ
  pub max_attribute : ℤ

-- The triple that a handler returns. Where the text comes from a player or from a slot, it is named
-- by what they gave; `crashed` is an exception that leaves the handler.
pub data Reply : Type 0 where
  answer : (success : Bool) (message : Option String) (intercept : ℕ) → Reply
  refusal : Refusal → Reply
  slot_reply : SlotReply → Reply
  crashed : Reply

unfoldable pub is_admin : String → Settings → Bool
unfolding contains
is_admin user_id settings = contains user_id settings.admin_users

abbrev pub ok : String → Reply
ok message = answer true (some message) 2

-- `True, None, 2`
abbrev pub silent : Reply
silent = answer true none 2

-- `False, message, 0`
abbrev pub failed : String → Reply
failed message = answer false (some message) 0

-- `False, message, 2`; the sign in front of a warning is left out.
abbrev pub warned : String → Reply
warned message = answer false (some message) 2
