-- ===== src/Commands/Moves.antt =====
-- What each command of components/commands.py does to the status of the session.
use mai_bot_trpg_plugin.Prelude.{
  ℕ, String, ◌≡◌, ◌⊎◌, refl, sym, ◌∙◌, ap, Bool, false, not, ◌&&◌, ◌||◌, Option, none, some, arith,
  ◌==◌, string_eq, if◌then◌else◌, Bool-cases, Option-cases, inl, inr, if_keeps, is_some,
}
use mai_bot_trpg_plugin.Prelude.Chars.{◌+++◌}
use mai_bot_trpg_plugin.Session.Defs.{
  TrpgSession, new_session, add_history, add_history_as, add_player, is_active,
}
use mai_bot_trpg_plugin.Storage.Defs.{
  Storage, Config, get_session, save_session, create_session, end_session, active_in,
  has_active_session, allowed_in, is_group_allowed, add_pending_join, get_pending_join, get_player,
  create_player, new_player, save_player, put_player,
}
use mai_bot_trpg_plugin.Modules.Base.{ModuleBase}
use mai_bot_trpg_plugin.Modules.Loader.{
  ModuleLoader, load_module, apply_module, apply_module_to_session,
}
use mai_bot_trpg_plugin.Commands.Defs.{Caller, Settings, Reply, is_admin}
use mai_bot_trpg_plugin.Commands.Play.{
  start, start_with, end_, end_with, save, save_with, pause, pause_with, resume, resume_with,
}
use mai_bot_trpg_plugin.Commands.Join.{
  enter, joined_entry, join, join_with, join_active, is_pending, has_members,
}
use mai_bot_trpg_plugin.Commands.Status.{
  status_in, Reaches, save_session-Reaches, same-Reaches, end_session-Reaches,
  create_session-Reaches, save_members-Reaches,
}
use mai_bot_trpg_plugin.Commands.Machine.{begin, is_status, paused_from, next}

active_in-status : (o : Option TrpgSession) → active_in o ≡ is_status "active" (status_in o)
unfolding active_in is_status status_in is_active
active_in-status none = refl
active_in-status (some s) = refl

is_status-found :
    (w : String) {o : Option String} (s : TrpgSession)
    → some s.status ≡ o
    → (s.status == w) ≡ is_status w o
unfolding is_status
is_status-found w s e = ap (is_status w) e

add_player-keeps :
    (u : String) (now : ℕ) (s : TrpgSession)
    → ((add_player u now s).stream_id ≡ s.stream_id) × ((add_player u now s).status ≡ s.status)
unfolding add_player
add_player-keeps u now s = (ground arith, ground arith)

module _ (c : Caller) (settings : Settings) (config : Config) {o : Option String} (st : Storage)
    (h : Reaches c.stream_id config o st) where
  -- The session of the stream, and the status it has.
  found_session :
      ((get_session c.stream_id st ≡ none) × (none ≡ o))
      ⊎ ((s : TrpgSession) × (get_session c.stream_id st ≡ some s)
          × (s.stream_id ≡ c.stream_id)
          × (some s.status ≡ o))
  unfolding status_in
  found_session = elim (Option-cases (get_session c.stream_id st)) [
    | inl e ↦ inl (e, sym (ap status_in e) ∙ h.status)
    | inr (s, e) ↦ inr (s, e, h.filed.own s e, sym (ap status_in e) ∙ h.status)
  ]

  -- A changed session is saved.
  saved-Reaches :
      (s : TrpgSession)
      → s.stream_id ≡ c.stream_id
      → Reaches c.stream_id config (some s.status) (save_session c.now s st)
  saved-Reaches s own = save_session-Reaches c.stream_id config c.now s st own h

  pub save-Reaches : Reaches c.stream_id config o (save c st).0
  unfolding save
  save-Reaches = elim found_session [
    | inl (e, here) ↦ rw e (unfold save_with in h)
    | inr (s, e, own, here) ↦ rw e (unfold save_with in rw (← here) (saved-Reaches s own))
  ]

  pub pause-Reaches : Reaches c.stream_id config (paused_from o) (pause c st).0
  unfolding pause
  pause-Reaches = elim found_session [
    | inl (e, here) ↦ rw e (unfold pause_with in rw (← here) (unfold paused_from in rw here h))
    | inr (s, e, own, here) ↦
        rw (e, ← here) (unfold paused_from pause_with in unfold add_history in saved-Reaches _ own)
  ]

  pub resume-Reaches :
      Reaches c.stream_id config (if is_status "paused" o then some "active" else o) (resume c st).0
  unfolding resume
  resume-Reaches = elim found_session [
    | inl (e, here) ↦
        let no : is_status "paused" o ≡ false =
          ap (is_status "paused") (sym here) ∙ unfold is_status in refl in
        rw (e, no) (unfold resume_with in h)
    | inr (s, e, own, here) ↦
        let test = sym (is_status-found "paused" s here) in
        rw (e, test)
          (unfold resume_with in
            elim (Bool-cases (s.status == "paused")) [
              | inl test_ ↦ rw test_ (unfold add_history in saved-Reaches _ own)
              | inr other ↦ rw other h
            ])
  ]

  pub end-Reaches :
      Reaches c.stream_id config
        (if settings.allow_player_end_session || is_admin c.user_id settings then none else o)
        (end_ c settings st).0
  unfolding end_
  end-Reaches = elim found_session [
    | inl (e, here) ↦
        let h0 : Reaches c.stream_id config none st = rw here h in
        rw (e, ← here)
          (unfold end_with in
            if_keeps (λ o. Reaches c.stream_id config o st)
              (settings.allow_player_end_session || is_admin c.user_id settings) (λ _. h0)
              (λ _. h0))
    | inr (s, e, own, here) ↦
        let closed : Reaches c.stream_id config none
            (end_session c.stream_id c.now
              (save_session c.now (add_history "system" "跑团结束" c.now s) st)).0 =
          unfold add_history in
          end_session-Reaches c.stream_id config c.now _
            (saved-Reaches (add_history "system" "跑团结束" c.now s) own) in
        rw e (
          unfold end_with in
          elim (Bool-cases settings.allow_player_end_session) [
            | inl all_may ↦ rw all_may closed
            | inr few ↦ elim (Bool-cases (is_admin c.user_id settings)) [
              | inl may ↦ rw (few, may) closed
              | inr other ↦ rw (few, other) h
            ]
          ])
  ]

  start_with-Reaches :
      (args : String) (m : Option ModuleBase)
      → Reaches c.stream_id config (some "active") (start_with c args m st).0
  start_with-Reaches args (some m) =
      unfold start_with apply_module_to_session in
      unfold apply_module add_history in
      save_session-Reaches c.stream_id config c.now
        (apply_module m c.now (new_session c.stream_id m.world_name c.now))
        (create_session c.stream_id m.world_name c.now st).0 refl
        (create_session-Reaches c.stream_id config m.world_name c.now st h)
  start_with-Reaches args none =
      unfold start_with in
      unfold add_history in
      save_session-Reaches c.stream_id config c.now
        (add_history "system" ("跑团开始: " +++ args) c.now (new_session c.stream_id args c.now))
        (create_session c.stream_id args c.now st).0 refl
        (create_session-Reaches c.stream_id config args c.now st h)

  pub start-Reaches :
      (args : String) (loader : ModuleLoader)
      → Reaches c.stream_id config
          (next c settings config (begin args loader) o)
          (start c args loader st).0
  unfolding start next has_active_session is_group_allowed
  start-Reaches args loader =
      let act : active_in (get_session c.stream_id st) ≡ is_status "active" o =
        active_in-status (get_session c.stream_id st) ∙ ap (is_status "active") h.status in
      let room = ap (λ (k : Config). allowed_in k.allowed_groups c.stream_id) h.settings in
      rw (act, room)
        (elim (Bool-cases (is_status "active" o)) [
          | inl runs ↦ rw runs h
          | inr idle ↦ rw idle (elim (Bool-cases (allowed_in config.allowed_groups c.stream_id)) [
            | inr other ↦ rw other h
            | inl may ↦ elim (Bool-cases (args == "")) [
              | inl blank ↦ rw (may, blank) h
              | inr named ↦ rw (may, named) (start_with-Reaches args (load_module args loader))
            ]
          ])
        ])

  enter-Reaches :
      (user_id name : String) (note : TrpgSession → TrpgSession)
      → ((s : TrpgSession) → ((note s).stream_id ≡ s.stream_id) × ((note s).status ≡ s.status))
      → Reaches c.stream_id config o (enter c user_id name note st)
  enter-Reaches user_id name note keeps =
      let player = new_player c.stream_id user_id name none c.now st.config in
      let stored : Storage = (save_player player (put_player c.stream_id player st)).0 in
      let h1 : Reaches c.stream_id config o stored =
        same-Reaches c.stream_id config st stored (unfold save_player put_player in refl)
          (unfold save_player put_player in refl) h in
      let h2 : Reaches c.stream_id config o
          (create_player c.stream_id user_id name none c.now st).0 =
        unfold create_player in
        save_members-Reaches c.stream_id config c.now (add_player user_id c.now) stored
          (add_player-keeps user_id c.now) h1 in
      unfold enter in save_members-Reaches c.stream_id config c.now note _ keeps h2

  join_active-Reaches :
      (name : String) (s : TrpgSession) (taken : Bool)
      → Reaches c.stream_id config o (join_active c settings name s taken st).0
  join_active-Reaches name s taken =
      let P : Storage × Reply → Type 0 = λ r. Reaches c.stream_id config o r.0 in
      unfold join_active in
      if_keeps P taken (λ _. h)
        (λ _.
          if_keeps P (not settings.allow_mid_join && has_members s) (λ _. h)
            (λ _.
              if_keeps P (settings.mid_join_require_confirm && not (is_admin c.user_id settings))
                (λ _.
                  if_keeps P (is_pending (get_pending_join c.stream_id c.user_id st)) (λ _. h)
                    (λ _.
                      unfold add_pending_join in same-Reaches c.stream_id config st _ refl refl h))
                (λ _.
                  enter-Reaches c.user_id name (joined_entry c name)
                    (λ s. unfold joined_entry add_history_as in (refl, refl)))))

  pub join-Reaches : (args : String) → Reaches c.stream_id config o (join c settings args st).0
  unfolding join
  join-Reaches args = elim found_session [
    | inl (e, here) ↦ rw e (unfold join_with in h)
    | inr (s, e, own, here) ↦ rw e (
        unfold join_with in
        if_keeps (λ (r : Storage × Reply). Reaches c.stream_id config o r.0) (is_active s)
          (λ _.
            join_active-Reaches (if args == "" then "无名冒险者" else args) s
              (is_some (get_player c.stream_id c.user_id st)))
          (λ _. h))
  ]
