-- ===== src/Handlers/Response.antt =====
-- `_generate_and_send_dm_response`, `_generate_batch_dm_response` and `_check_and_generate_climax_image` of
-- components/handlers.py. What the language model of the host answers is an argument, and whether
-- services/image_generator.py, which is not modelled, makes an image. The session is the object in the cache, which the changes may have replaced by a cut one.
use mai_bot_trpg_plugin.Prelude.{
  ℕ, zero, suc, String, Bool, true, false, ◌&&◌, Option, none, some, List, [], ◌∷◌, string_eq, ◌==◌,
  if◌then◌else◌,
}
use mai_bot_trpg_plugin.Prelude.Chars.{◌+++◌}
use mai_bot_trpg_plugin.Player.Defs.{Player}
use mai_bot_trpg_plugin.Session.Defs.{TrpgSession, add_history, mark_summary, mark_image}
use mai_bot_trpg_plugin.Storage.Defs.{Storage, get_session, save_session}
use mai_bot_trpg_plugin.Dice.Parse.{strip_left, strip_right}
use mai_bot_trpg_plugin.DmEngine.Changes.{GameStateChange, has_changes}
use mai_bot_trpg_plugin.DmEngine.Apply.{Note, Applied, apply_state_changes}
use mai_bot_trpg_plugin.DmEngine.Tags.{parse_state_changes}
use mai_bot_trpg_plugin.DmEngine.Clean.{clean_state_tags}
use mai_bot_trpg_plugin.DmEngine.Story.{
  detect_climax, update_tension_level, should_update_summary, join_texts,
}
use mai_bot_trpg_plugin.DmEngine.Reply.{
  LlmApi, EngineSettings, generate_dm_response, generate_batch_response,
}
use mai_bot_trpg_plugin.Handlers.Collector.{Action}

-- The host at each attempt, the model that is asked for a summary, and whether an image was made.
pub record Services : Type 0 where
  pub llm : LlmApi
  pub summary : TrpgSession → Option String
  pub image : TrpgSession → String → Bool

pub record ResponseSettings : Type 0 where
  pub engine : EngineSettings
  pub max_retries : ℕ
  pub image_enabled : Bool
  pub climax_auto_image : Bool

pub data Told : Type 0 where
  told : (text : String) → List Note → Told
  told_image : Told
  failed : Told

-- `if response: break`
unfoldable pub usable : String → Bool
usable response = if response == "" then false else true

-- The attempts from number `attempt` on; the first answer that is not empty ends them. The engine
-- catches its exceptions, so that none comes here.
unfoldable pub first_answer : (ℕ → String) → ℕ → ℕ → Option String
unfolding usable
first_answer answer attempt zero = none
first_answer answer attempt (suc left) =
    let later = first_answer answer (suc attempt) left in
    if usable (answer attempt) then some (answer attempt) else later

-- `update_story_summary`: an answer that is not empty, stripped.
unfoldable pub write_summary : Option String → TrpgSession → TrpgSession
unfolding mark_summary strip_left strip_right
write_summary none s = s
write_summary (some response) s =
    if response == "" then s else mark_summary (strip_right (strip_left response)) s

-- The session object, where it lies in the cache.
unfoldable pub current_session : String → TrpgSession → Storage → TrpgSession
unfolding get_session
current_session stream_id s st = elim (get_session stream_id st) [ none ↦ s | some t ↦ t ]

-- The session after a cleaned response was recorded.
unfoldable pub record_response : Services → String → String → ℕ → TrpgSession → TrpgSession
unfolding add_history update_tension_level should_update_summary write_summary
record_response services entry clean now s =
    let told_session = update_tension_level clean (add_history "dm" entry now s) in
    if should_update_summary told_session
    then write_summary (services.summary told_session) told_session
    else told_session

unfoldable pub check_climax :
    Services → ResponseSettings → String → ℕ → TrpgSession → Storage → Storage × List Told
unfolding detect_climax mark_image save_session
check_climax services cfg clean now s st =
    if cfg.image_enabled
      && cfg.climax_auto_image
      && detect_climax cfg.climax_auto_image clean s
      && services.image s clean
    then (save_session now (mark_image s) st, told_image ∷ [])
    else (st, [])

-- What is done behind the changes; where they raised an exception, nothing more.
unfoldable pub after_changes :
    Services
    → ResponseSettings
    → String
    → (String → String)
    → String
    → ℕ
    → TrpgSession
    → Applied
    → Storage × List Told
unfolding current_session record_response save_session check_climax
after_changes services cfg stream_id entry_of clean now s (st, none) = (st, [])
after_changes services cfg stream_id entry_of clean now s (st, some notes) =
    let recorded =
      record_response services (entry_of clean) clean now (current_session stream_id s st) in
    let saved = save_session now recorded st in
    let (done, images) =
      check_climax services cfg clean now (current_session stream_id recorded saved) saved in
    (done, told clean notes ∷ images)

-- The changes of a response, where there are any.
unfoldable pub change_state : GameStateChange → TrpgSession → ℕ → Storage → Applied
unfolding has_changes apply_state_changes
change_state c s now st = if has_changes c then apply_state_changes c s now st else (st, some [])

unfoldable pub use_response :
    Services
    → ResponseSettings
    → String
    → (String → String)
    → String
    → ℕ
    → TrpgSession
    → Option String
    → Storage
    → Storage × List Told
unfolding parse_state_changes change_state clean_state_tags after_changes
use_response services cfg stream_id entry_of uid now s none st = (st, failed ∷ [])
use_response services cfg stream_id entry_of uid now s (some response) st =
    after_changes services cfg stream_id entry_of (clean_state_tags response) now s
      (change_state (parse_state_changes response uid) s now st)

abbrev pub id_of : Option Player → String
id_of none = ""
id_of (some p) = p.user_id

unfoldable pub generate_and_send_dm_response :
    Services
    → ResponseSettings
    → String
    → ℕ
    → TrpgSession
    → String
    → Option Player
    → Storage
    → Storage × List Told
unfolding generate_dm_response first_answer use_response
generate_and_send_dm_response services cfg stream_id now s player_message player st =
    use_response services cfg stream_id (λ clean. clean) (id_of player) now s
      (first_answer (generate_dm_response services.llm cfg.engine s player_message) 0
        cfg.max_retries)
      st

-- The tags of a response to several actions have to name their users.
unfoldable pub generate_batch_dm_response :
    Services
    → ResponseSettings
    → String
    → ℕ
    → TrpgSession
    → List Action
    → Storage
    → Storage × List Told
unfolding generate_batch_response first_answer use_response
generate_batch_dm_response services cfg stream_id now s actions st =
    use_response services cfg stream_id (λ clean. "[多人回合]\n" +++ clean) "" now s
      (first_answer (generate_batch_response services.llm cfg.engine actions) 0 cfg.max_retries) st

-- The message about the actions of a round.
unfoldable pub combined_message : List Action → String
unfolding join_texts
combined_message actions = join_texts "\n" (lines actions)
  where
    lines : List Action → List String
    lines [] = []
    lines (a ∷ as_) = ("【" +++ a.character_name +++ "】" +++ a.action) ∷ lines as_
