-- ===== src/Commands/Tests.antt =====
-- Runs of components/commands.py.
use mai_bot_trpg_plugin.Prelude.{
  eq_iff, refl, true, false, none, some, [], if◌then◌else◌, ◌==◌, ◌&&◌, arith, contains, string_eq,
  ℕ, String, ◌≡◌, List, ◌∷◌,
}
use mai_bot_trpg_plugin.Prelude.Chars.{lower}
use mai_bot_trpg_plugin.Prelude.Dict.{lookup, lookup_or}
use mai_bot_trpg_plugin.Session.Defs.{is_active, add_history, add_history_as, mark_summary}
use mai_bot_trpg_plugin.Storage.Defs.{
  Storage, get_session, get_player, new_player, get_pending_join, get_all_pending_joins,
}
use mai_bot_trpg_plugin.Storage.Tests.{running, table_one}
use mai_bot_trpg_plugin.Commands.Defs.{Caller, is_admin}
use mai_bot_trpg_plugin.Commands.Join.{is_filled, join, confirm}
use mai_bot_trpg_plugin.Commands.Joining.{join_permitted, confirm_decides}
use mai_bot_trpg_plugin.Prelude.Int.{pos}
use mai_bot_trpg_plugin.Modules.Tests.{no_modules}
use mai_bot_trpg_plugin.Storage.Defs.{new_storage, allowed_in}
use mai_bot_trpg_plugin.Storage.Tests.{plain_config}
use mai_bot_trpg_plugin.Commands.Defs.{Settings}
use mai_bot_trpg_plugin.Commands.Status.{status_of}
use mai_bot_trpg_plugin.Commands.Machine.{Command, begin, finish, hold, come_in, paused_from}
use mai_bot_trpg_plugin.Commands.Life.{execute_all, next_all, status-execute_all}

abbrev strict : Settings
strict = record {
  admin_users = "gm" ∷ [];
  allow_player_end_session = false;
  allow_mid_join = true;
  mid_join_require_confirm = false;
  min_attribute = pos 3;
  max_attribute = pos 18;
}

-- A player cannot end the paused session.
abbrev evening : List (String × ℕ × String × Command)
evening =
    ("u1", 1, "", begin "Avalon" no_modules)
    ∷ ("u1", 2, "", come_in "Ada")
    ∷ ("u1", 3, "", hold)
    ∷ ("u1", 4, "", finish)
    ∷ []

status-execute_all_example :
    status_of "g1" (execute_all "g1" strict evening (new_storage plain_config [])) ≡ some "paused"
unfolding next_all paused_from allowed_in
status-execute_all_example = status-execute_all "g1" strict plain_config [] evening

-- A settings file that wants a confirmation.
abbrev guarded : Settings
guarded = record strict { mid_join_require_confirm = true }

abbrev master : Caller
master = record { stream_id = "g1"; user_id = "gm"; now = 6; stamp = "" }

table_session : get_session "g1" table_one ≡ some running
unfolding get_session lookup
table_session = refl

running_active : is_active running ≡ true
unfolding is_active add_history add_history_as mark_summary
running_active = refl

join_permitted_example :
    get_player "g1" "gm" (join master guarded "Merlin" table_one).0
    ≡ some (new_player "g1" "gm" "Merlin" none 6 plain_config)
unfolding get_player lookup is_filled is_admin contains add_history add_history_as mark_summary
join_permitted_example =
    join_permitted master guarded "Merlin" table_one running table_session running_active refl "gm"

-- The stranger's request is waiting.
abbrev waiting : Storage
waiting = record table_one { pending_joins = ("g1", ("u2", "Bram") ∷ []) ∷ [] }

confirm_decides_example :
    let t = (confirm master guarded ("accept" ∷ "u2" ∷ []) waiting).0 in
    (get_pending_join "g1" "u2" t ≡ none)
    × ((w : String)
        → get_player "g1" w t ≡ (
            if (lower "accept" == "accept") && "u2" == w
            then some (new_player "g1" "u2" "Bram" none 6 plain_config)
            else get_player "g1" w waiting))
unfolding is_admin contains get_pending_join get_all_pending_joins lookup_or lookup
confirm_decides_example =
    confirm_decides master guarded "accept" "u2" "Bram" [] waiting refl refl
      (λ e. ground (arith, eq_iff "Bram" "")) (refl, tt)
