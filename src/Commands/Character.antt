-- ===== src/Commands/Character.antt =====
-- `_pc`, `_hp` and `_mp` of components/commands.py. Each is split at the character that it looks up.
-- The character is the object of the cache: a change of it stays there also where writing the file
-- fails.
use mai_bot_trpg_plugin.Prelude.{
  ℕ, String, Bool, Option, none, some, List, [], ◌∷◌, ◌==◌, string_eq, if◌then◌else◌,
}
use mai_bot_trpg_plugin.Prelude.Chars.{lower}
use mai_bot_trpg_plugin.Prelude.Int.{ℤ, pos, leb_ℤ, neg_ℤ}
use mai_bot_trpg_plugin.Player.Attributes.{PlayerAttributes, set_attribute, get_display_fails}
use mai_bot_trpg_plugin.Player.Defs.{
  Player, Allocation, allocated, refused, type_error, locked, modify_hp, modify_mp, allocate_point,
  lock_character, unlock_character, reset_points, Reset, paid_back, reset_refused, reset_error,
}
use mai_bot_trpg_plugin.Storage.Defs.{Storage, get_player, put_player, save_player, delete_player}
use mai_bot_trpg_plugin.Commands.Defs.{
  Caller, Settings, Reply, refusal, crashed, ok, silent, failed, warned, is_admin,
}
use mai_bot_trpg_plugin.Commands.Words.{parse_int}

-- A changed character is saved, and the handler answers where that works.
unfoldable pub keep : Player → Reply → Storage → Storage × Reply
unfolding put_player save_player
keep player reply st =
    let (saved, written) = save_player player (put_player player.stream_id player st) in
    (saved, if written then reply else crashed)

-- The ends of the branches `add` and `sub`.
unfoldable pub finish_points : Player × Allocation → Storage → Storage × Reply
unfolding keep
finish_points (player, allocated current new left) st = keep player silent st
finish_points (player, refused r) st = (st, refusal r)
finish_points (player, type_error) st = (st, crashed)

-- The number of points, 1 where none is given.
unfoldable pub points_of : List String → Option ℤ
unfolding parse_int
points_of [] = some (pos 1)
points_of (w ∷ ws) = parse_int w

-- The branches `add` and `sub`; `signed` gives the points or takes them.
unfoldable pub change_points :
    Caller → Settings → (ℤ → ℤ) → String → Option ℤ → Player → Storage → Storage × Reply
unfolding allocate_point finish_points
change_points c settings signed name none player st = (st, failed "无效数值")
change_points c settings signed name (some points) player st =
    if leb_ℤ points (pos 0)
    then (st, failed "无效数值")
    else finish_points
        (allocate_point name (signed points) settings.min_attribute settings.max_attribute c.now
          player)
        st

-- The branch `reset`.
unfoldable pub finish_reset : Player × Reset → Storage → Storage × Reply
unfolding keep
finish_reset (player, paid_back total) st = keep player silent st
finish_reset (player, reset_refused) st = (st, refusal locked)
finish_reset (player, reset_error) st = (st, crashed)

-- The character sheet, which is shown, prints the attributes.
unfoldable pub show_sheet : Player → Reply
unfolding get_display_fails
show_sheet player = if get_display_fails player.attributes then crashed else silent

-- The branches `lock`, which shows the sheet, and `unlock`: a call without effect answers with the
-- reason.
unfoldable pub finish_lock : Player × Bool → Reply → String → Storage → Storage × Reply
unfolding keep
finish_lock (player, done) reply reason st =
    if done then keep player reply st else (st, warned reason)

-- What follows the call of `set_attribute`, which may have raised.
unfoldable pub finish_set : Option (PlayerAttributes × Bool) → Player → Storage → Storage × Reply
unfolding keep
finish_set none player st = (st, crashed)
finish_set (some (attributes, done)) player st =
    if done then keep (record player { attributes = attributes }) silent st else (st, failed "设置失败")

-- The branch `set`; the user is an administrator.
unfoldable pub set_stat : String → Option ℤ → Player → Storage → Storage × Reply
unfolding set_attribute finish_set
set_stat name none player st = (st, failed "设置失败")
set_stat name (some value) player st =
    finish_set (set_attribute name value player.attributes) player st

-- `_pc` from the character on; `parts` is what follows the action in `args.split(maxsplit=2)`.
unfoldable pub pc_action :
    Caller → Settings → String → List String → Player → Storage → Storage × Reply
unfolding change_points points_of reset_points finish_reset lock_character unlock_character
    show_sheet finish_lock is_admin set_stat parse_int delete_player neg_ℤ
pc_action c settings action parts player st =
    if action == "show"
    then (st, show_sheet player)
    else if action == "reset"
    then finish_reset (reset_points c.now player) st
    else if action == "lock"
    then finish_lock (lock_character c.now player) (show_sheet player) "角色已经锁定" st
    else if action == "unlock"
    then if is_admin c.user_id settings
      then finish_lock (unlock_character c.now player) silent "角色未锁定" st
      else (st, failed "权限不足")
    else if action == "leave"
    then ((delete_player c.stream_id c.user_id c.now st).0, ok "离开")
    else elim parts [
      | [] ↦ (st, failed "格式错误")
      | name ∷ rest ↦
          if action == "add"
          then change_points c settings (λ n. n) name (points_of rest) player st
          else if action == "sub"
          then change_points c settings neg_ℤ name (points_of rest) player st
          else elim rest [
            | [] ↦ (st, failed "格式错误")
            | value ∷ more ↦
                if action == "set"
                then if is_admin c.user_id settings
                  then set_stat name (parse_int value) player st
                  else (st, failed "权限不足")
                else (st, failed "格式错误")
          ]
    ]

-- `parts` is `args.split(maxsplit=2)`.
unfoldable pub pc_with : Caller → Settings → List String → Option Player → Storage → Storage × Reply
unfolding lower pc_action
pc_with c settings parts none st = (st, failed "未加入")
pc_with c settings [] (some player) st = pc_action c settings "show" [] player st
pc_with c settings (w ∷ ws) (some player) st = pc_action c settings (lower w) ws player st

unfoldable pub pc : Caller → Settings → List String → Storage → Storage × Reply
unfolding get_player pc_with
pc c settings parts st = pc_with c settings parts (get_player c.stream_id c.user_id st) st

-- The amount, 0 where none is given.
unfoldable pub amount_of : String → Option ℤ
unfolding parse_int
amount_of args = if args == "" then some (pos 0) else parse_int args

-- `_hp` and `_mp` from the character and the amount on; `modify` is the method of the character.
unfoldable pub vital_with :
    Caller
    → (ℤ → ℕ → Player → Player × ℤ × ℤ)
    → Option ℤ
    → Option Player
    → Storage
    → Storage × Reply
unfolding keep
vital_with c modify amount none st = (st, failed "未加入")
vital_with c modify none (some player) st = (st, failed "无效数值")
vital_with c modify (some amount) (some player) st = keep (modify amount c.now player).0 silent st

unfoldable pub hp : Caller → String → Storage → Storage × Reply
unfolding get_player vital_with amount_of modify_hp
hp c args st = vital_with c modify_hp (amount_of args) (get_player c.stream_id c.user_id st) st

unfoldable pub mp : Caller → String → Storage → Storage × Reply
unfolding get_player vital_with amount_of modify_mp
mp c args st = vital_with c modify_mp (amount_of args) (get_player c.stream_id c.user_id st) st
