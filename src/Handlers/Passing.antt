-- ===== src/Handlers/Passing.antt =====
-- Which messages components/handlers.py passes on, and which it leaves alone.
use mathlib.Core.Path.{subst}
use mai_bot_trpg_plugin.Prelude.{
  ℕ, ◌≡◌, refl, sym, ◌⊎◌, inl, inr, true, false, not, ◌&&◌, ◌||◌, Option, none, some, [], arith,
  Bool-cases, string_eq, ◌==◌, if◌then◌else◌, if_keeps,
}
use mai_bot_trpg_plugin.Player.Defs.{Player}
use mai_bot_trpg_plugin.Session.Defs.{TrpgSession}
use mai_bot_trpg_plugin.Storage.Defs.{
  get_session, active_in, has_active_session, get_player, is_group_enabled,
}
use mai_bot_trpg_plugin.DmEngine.Story.{starts_with}
use mai_bot_trpg_plugin.Handlers.Rounds.{Table}
use mai_bot_trpg_plugin.Handlers.Execute.{
  Settings, Message, Handled, untouched, is_trpg_command, handle_command, respond, handle_player,
  handle_in, execute,
}

module _ (cfg : Settings) (msg : Message) (now : ℕ) (t : Table) where
  handle_in-idle :
      (o : Option TrpgSession) → active_in o ≡ false → handle_in cfg msg now o t ≡ untouched true t
  unfolding active_in handle_in
  handle_in-idle none h = refl
  handle_in-idle (some s) h = rw h

  handle_player-continues :
      (s : TrpgSession) (player : Option Player)
      → (handle_player cfg msg now s player t).continues ≡ not cfg.takeover_message
  unfolding handle_player respond
  handle_player-continues s player = ground arith

  -- What is said below of a message of an active session.
  abbrev IsPassed : Handled → Type 0
  IsPassed r =
      let command = starts_with "/" msg.plain_text in
      (r.continues ≡ (
        if command && is_trpg_command msg.plain_text
        then not cfg.block_other_plugins
        else not cfg.takeover_message))
      × (command ≡ true → (r.table ≡ t) × (r.sent ≡ []))

  handle_command-IsPassed :
      starts_with "/" msg.plain_text ≡ true → IsPassed (handle_command cfg msg.plain_text t)
  unfolding handle_command
  handle_command-IsPassed h = elim (Bool-cases (is_trpg_command msg.plain_text)) [
    | inl game ↦ rw (h, game) (refl, λ _. (refl, refl))
    | inr other ↦ rw (h, other) (refl, λ _. (refl, refl))
  ]

  handle_in-IsPassed :
      (o : Option TrpgSession)
      → (msg.plain_text == "") ≡ false
      → (msg.user_id == "") ≡ false
      → active_in o ≡ true
      → IsPassed (handle_in cfg msg now o t)
  unfolding active_in handle_in
  handle_in-IsPassed none h2 h3 h = absurd (cc h)
  handle_in-IsPassed (some s) h2 h3 h = elim (Bool-cases (starts_with "/" msg.plain_text)) [
    | inl command ↦
        let run : handle_in cfg msg now (some s) t ≡ handle_command cfg msg.plain_text t =
          rw (h, h2, command) in
        subst IsPassed (sym run) (handle_command-IsPassed command)
    | inr plain ↦
        rw (h, h2, plain, h3)
          (
            handle_player-continues s (get_player msg.stream_id msg.user_id t.storage),
            λ no. absurd (cc no),
          )
  ]

-- Outside a group in which the game is on and a session is active, every message is passed on, and
-- nothing is changed or sent.
pub execute_outside :
    (cfg : Settings) (msg : Message) (now : ℕ) (t : Table)
    → (is_group_enabled msg.stream_id t.storage ≡ false)
      ⊎ (has_active_session msg.stream_id t.storage ≡ false)
    → execute cfg msg now t ≡ untouched true t
execute_outside cfg msg now t (inl off) =
    unfold execute in
    elim (Bool-cases (msg.stream_id == "")) [ inl e ↦ rw (off, e) | inr e ↦ rw (off, e) ]
execute_outside cfg msg now t (inr idle) =
    unfold execute in
    if_keeps (λ r. r ≡ untouched true t)
      (msg.stream_id == "" || not (is_group_enabled msg.stream_id t.storage)) (λ _. refl)
      (λ _.
        handle_in-idle cfg msg now t (get_session msg.stream_id t.storage)
          (unfold has_active_session in idle))

-- In a group in which the game is on and a session is active, a message with a text and a user goes
-- on to other plugins exactly where messages are not taken over, but a command of the game exactly
-- where other plugins are not blocked. What begins like a command changes and sends nothing here.
pub execute_within :
    (cfg : Settings) (msg : Message) (now : ℕ) (t : Table)
    → (msg.stream_id == "") ≡ false
    → (msg.plain_text == "") ≡ false
    → (msg.user_id == "") ≡ false
    → is_group_enabled msg.stream_id t.storage ≡ true
    → has_active_session msg.stream_id t.storage ≡ true
    → let r = execute cfg msg now t in
      let command = starts_with "/" msg.plain_text in
      (r.continues ≡ (
        if command && is_trpg_command msg.plain_text
        then not cfg.block_other_plugins
        else not cfg.takeover_message))
      × (command ≡ true → (r.table ≡ t) × (r.sent ≡ []))
execute_within cfg msg now t h1 h2 h3 on active =
    unfold execute in
    rw (h1, on)
      (handle_in-IsPassed cfg msg now t (get_session msg.stream_id t.storage) h2 h3
        (unfold has_active_session in active))
