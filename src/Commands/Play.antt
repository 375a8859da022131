-- ===== src/Commands/Play.antt =====
-- `_start`, `_end`, `_save`, `_pause` and `_resume` of components/commands.py. A handler is split at
-- the session or the module that it looks up. The introduction that the model writes is sent only.
use mai_bot_trpg_plugin.Prelude.{
  String, not, ◌&&◌, Option, none, some, ◌==◌, string_eq, if◌then◌else◌,
}
use mai_bot_trpg_plugin.Prelude.Chars.{◌+++◌}
use mai_bot_trpg_plugin.Session.Defs.{TrpgSession, add_history}
use mai_bot_trpg_plugin.Storage.Defs.{
  Storage, get_session, save_session, create_session, end_session, has_active_session,
  is_group_allowed,
}
use mai_bot_trpg_plugin.Modules.Base.{ModuleBase}
use mai_bot_trpg_plugin.Modules.Loader.{ModuleLoader, load_module, apply_module_to_session}
use mai_bot_trpg_plugin.Commands.Defs.{
  Caller, Settings, Reply, ok, silent, failed, warned, is_admin,
}

-- The branches of `_start` for a name that is given: a module of that name, or a world of that name.
unfoldable pub start_with : Caller → String → Option ModuleBase → Storage → Storage × Reply
unfolding create_session apply_module_to_session add_history save_session
start_with c args (some m) st =
    let (created, session) = create_session c.stream_id m.world_name c.now st in
    (apply_module_to_session m c.now session created, ok ("模组 " +++ m.info.name +++ " 已加载"))
start_with c args none st =
    let (created, session) = create_session c.stream_id args c.now st in
    (
      save_session c.now (add_history "system" ("跑团开始: " +++ args) c.now session) created,
      ok "跑团会话已开始",
    )

unfoldable pub start : Caller → String → ModuleLoader → Storage → Storage × Reply
unfolding has_active_session is_group_allowed load_module start_with
start c args loader st =
    if has_active_session c.stream_id st
    then (st, warned "已有进行中的跑团！使用 /trpg end 结束")
    else if not (is_group_allowed c.stream_id st)
    then (st, failed "群组不允许")
    else if args == ""
    then (st, silent)
    else start_with c args (load_module args loader) st

-- `_end` from the session on.
unfoldable pub end_with : Caller → Settings → Option TrpgSession → Storage → Storage × Reply
unfolding is_admin add_history save_session end_session
end_with c settings none st = (st, warned "当前没有进行中的跑团")
end_with c settings (some session) st =
    if not settings.allow_player_end_session && not (is_admin c.user_id settings)
    then (st, failed "权限不足")
    else let saved = save_session c.now (add_history "system" "跑团结束" c.now session) st in
      ((end_session c.stream_id c.now saved).0, ok "跑团已结束")

unfoldable pub end_ : Caller → Settings → Storage → Storage × Reply
unfolding get_session end_with
end_ c settings st = end_with c settings (get_session c.stream_id st) st

unfoldable pub save_with : Caller → Option TrpgSession → Storage → Storage × Reply
unfolding save_session
save_with c none st = (st, warned "当前没有跑团会话")
save_with c (some session) st = (save_session c.now session st, ok "已保存")

unfoldable pub save : Caller → Storage → Storage × Reply
unfolding get_session save_with
save c st = save_with c (get_session c.stream_id st) st

unfoldable pub pause_with : Caller → Option TrpgSession → Storage → Storage × Reply
unfolding add_history save_session
pause_with c none st = (st, warned "当前没有跑团会话")
pause_with c (some session) st = (
  save_session c.now (add_history "system" "跑团暂停" c.now (record session { status = "paused" })) st,
  ok "已暂停",
)

unfoldable pub pause : Caller → Storage → Storage × Reply
unfolding get_session pause_with
pause c st = pause_with c (get_session c.stream_id st) st

unfoldable pub resume_with : Caller → Option TrpgSession → Storage → Storage × Reply
unfolding add_history save_session
resume_with c none st = (st, warned "当前没有跑团会话")
resume_with c (some session) st =
    if session.status == "paused"
    then (
      save_session c.now (add_history "system" "跑团继续" c.now (record session { status = "active" }))
          st,
      ok "已继续",
    )
    else (st, warned "会话未处于暂停状态")

unfoldable pub resume : Caller → Storage → Storage × Reply
unfolding get_session resume_with
resume c st = resume_with c (get_session c.stream_id st) st
