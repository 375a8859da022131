-- ===== src/Commands/Join.antt =====
-- `_join` and `_confirm` of components/commands.py.
use mai_bot_trpg_plugin.Prelude.{
  String, Bool, true, false, not, ◌&&◌, Option, none, some, List, [], ◌∷◌, ◌==◌, string_eq,
  if◌then◌else◌, is_some,
}
use mai_bot_trpg_plugin.Prelude.Chars.{lower, ◌+++◌}
use mai_bot_trpg_plugin.Json.{obj, end}
use mai_bot_trpg_plugin.Session.Defs.{TrpgSession, add_history_as, add_history, is_active}
use mai_bot_trpg_plugin.Storage.Defs.{
  Storage, get_session, save_members, get_player, create_player, get_pending_join, add_pending_join,
  remove_pending_join,
}
use mai_bot_trpg_plugin.Commands.Defs.{Caller, Settings, Reply, ok, silent, failed, is_admin}

-- The character is created, and the session object, which `create_player` has just changed and
-- saved, gets its entry.
unfoldable pub enter : Caller → String → String → (TrpgSession → TrpgSession) → Storage → Storage
unfolding create_player get_session save_members
enter c user_id character_name note st =
    let created = (create_player c.stream_id user_id character_name none c.now st).0 in
    save_members c.now note (get_session c.stream_id created) created

unfoldable pub joined_entry : Caller → String → TrpgSession → TrpgSession
unfolding add_history_as
joined_entry c character_name s =
    add_history_as "system" (character_name +++ " 加入了冒险") (some c.user_id) none (obj end) c.now s

-- An empty pending name counts as no request.
unfoldable pub is_pending : Option String → Bool
is_pending none = false
is_pending (some name) = not (name == "")

-- A list counts as true where it is not empty.
unfoldable pub is_filled : List String → Bool
is_filled [] = false
is_filled (u ∷ us) = true

abbrev pub has_members : TrpgSession → Bool
has_members s = is_filled s.player_ids

-- `_join` from the active session on, `taken` is whether the user has a character.
unfoldable pub join_active :
    Caller → Settings → String → TrpgSession → Bool → Storage → Storage × Reply
unfolding is_admin get_pending_join is_pending add_pending_join enter joined_entry
join_active c settings character_name session taken st =
    if taken
    then (st, failed "已加入")
    else if not settings.allow_mid_join && has_members session
    then (st, failed "不允许中途加入")
    else if settings.mid_join_require_confirm && not (is_admin c.user_id settings)
    then if is_pending (get_pending_join c.stream_id c.user_id st)
      then (st, ok "待确认")
      else (add_pending_join c.stream_id c.user_id character_name st, ok "待确认")
    else (
      enter c c.user_id character_name (joined_entry c character_name) st,
      ok (character_name +++ " 加入"),
    )

unfoldable pub join_with :
    Caller → Settings → String → Option TrpgSession → Storage → Storage × Reply
unfolding is_active get_player join_active
join_with c settings name none st = (st, failed "无会话")
join_with c settings name (some session) st =
    if is_active session
    then join_active c settings name session (is_some (get_player c.stream_id c.user_id st)) st
    else (st, failed "会话未激活")

-- The argument is stripped.
unfoldable pub join : Caller → Settings → String → Storage → Storage × Reply
unfolding get_session join_with
join c settings args st =
    join_with c settings (if args == "" then "无名冒险者" else args) (get_session c.stream_id st) st

unfoldable pub confirmed_entry : Caller → String → TrpgSession → TrpgSession
unfolding add_history
confirmed_entry c character_name s =
    add_history "system" (character_name +++ " 加入了冒险（管理员确认）") c.now s

-- `_confirm` behind the request that was taken out.
unfoldable pub confirm_request :
    Caller → String → String → Option String → Storage → Storage × Reply
unfolding enter confirmed_entry
confirm_request c action target none st = (st, failed "请求不存在")
confirm_request c action target (some name) st =
    if name == ""
    then (st, failed "请求不存在")
    else if action == "accept"
    then (enter c target name (confirmed_entry c name) st, ok "已确认")
    else if action == "reject"
    then (st, ok "已拒绝")
    else (st, failed "未知操作")

-- `parts` is `args.split()`.
unfoldable pub confirm : Caller → Settings → List String → Storage → Storage × Reply
unfolding is_admin lower remove_pending_join confirm_request
confirm c settings parts st =
    if not (is_admin c.user_id settings) then (st, failed "权限不足") else elim parts [
      | [] ↦ (st, silent)
      | action ∷ rest ↦ elim rest [
        | [] ↦ (st, failed "缺少参数")
        | target ∷ more ↦
            let (popped, request) = remove_pending_join c.stream_id target st in
            confirm_request c (lower action) target request popped
      ]
    ]
