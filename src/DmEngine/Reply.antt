-- ===== src/DmEngine/Reply.antt =====
-- `generate_dm_response` and `generate_batch_dm_response` of services/dm_engine.py, with the texts that
-- they fall back to. What `llm_api` of the host gives is an argument. The prompt goes to it only, so
-- that it is left out: what is answered to it is arbitrary.
use mai_bot_trpg_plugin.Prelude.{
  ℕ, String, Bool, not, ◌&&◌, Option, none, some, List, [], ◌∷◌, ◌++◌, take, ltb, string_eq, ◌==◌,
  if◌then◌else◌,
}
use mai_bot_trpg_plugin.Prelude.Dict.{Dict, keys}
use mai_bot_trpg_plugin.Prelude.Chars.{◌+++◌, take_text}
use mai_bot_trpg_plugin.Dice.Parse.{strip_left, strip_right}
use mai_bot_trpg_plugin.Dice.Roll.{text_length}
use mai_bot_trpg_plugin.Session.Defs.{TrpgSession}
use mai_bot_trpg_plugin.DmEngine.Story.{join_texts, select_model_config}
use mai_bot_trpg_plugin.Handlers.Collector.{Action}

-- What the host gives at each attempt: the models under their names, where the configuration of a
-- model is a text, and the success and the text of a model that is asked. `none` is an exception.
pub record LlmApi : Type 0 where
  pub get_available_models : ℕ → Option (Dict String String)
  pub generate_with_model : ℕ → String → Option (Bool × String)

pub record EngineSettings : Type 0 where
  pub dm_response_model : String
  pub use_maibot_replyer : Bool
  pub include_hints : Bool

unfoldable pub fallback_keys : Bool → List String
fallback_keys use_maibot_replyer =
    if use_maibot_replyer
    then "replyer" ∷ "normal_chat" ∷ "utils" ∷ []
    else "normal_chat" ∷ "utils" ∷ "replyer" ∷ []

-- `if success and response`
unfoldable pub successful : Option (Bool × String) → Option String
successful none = none
successful (some (success, response)) =
    if success && not (response == "") then some response else none

unfoldable pub generated : (String → Option (Bool × String)) → Option String → Option String
unfolding successful
generated ask none = none
generated ask (some model_config) = successful (ask model_config)

-- The text that a model gives; `none` where the fallback is taken, which is so also where there is no
-- model.
unfoldable pub ask_model : LlmApi → EngineSettings → ℕ → Option String
unfolding select_model_config fallback_keys generated
ask_model api settings attempt = elim (api.get_available_models attempt) [
  | none ↦ none
  | some models ↦ generated (api.generate_with_model attempt) (
      select_model_config models settings.dm_response_model
        (fallback_keys settings.use_maibot_replyer))
]

unfoldable pub strip : String → String
unfolding strip_left strip_right
strip text = strip_right (strip_left text)

unfoldable pub get_action_hints : TrpgSession → String
unfolding keys join_texts
get_action_hints session = elim (take 2 (keys session.npcs)) [
  | [] ↦ ""
  | name ∷ names ↦ "可以与" +++ join_texts "/" (name ∷ names) +++ "交谈"
]

-- The hints that are behind a short response.
unfoldable pub hints_of : EngineSettings → TrpgSession → String
unfolding get_action_hints
hints_of settings session = if settings.include_hints then get_action_hints session else ""

unfoldable pub with_hints : String → String → String
with_hints hints response = if hints == "" then response else response +++ "\n\n💡 " +++ hints

unfoldable pub format_response : EngineSettings → TrpgSession → String → String
unfolding hints_of with_hints
format_response settings session response =
    if ltb (text_length response) 200
    then with_hints (hints_of settings session) response
    else response

unfoldable pub get_fallback_response : String → String
unfolding take_text
get_fallback_response player_message = "你尝试" +++ take_text 20 player_message +++ "...请稍等，DM正在思考结果。"

-- What the answer of the model, or its lack, is made to.
unfoldable pub answered : (String → String) → String → Option String → String
unfolding strip
answered format fallback none = fallback
answered format fallback (some response) = format (strip response)

-- `attempt` says which call of the host it is.
unfoldable pub generate_dm_response : LlmApi → EngineSettings → TrpgSession → String → ℕ → String
unfolding format_response get_fallback_response ask_model answered
generate_dm_response api settings session player_message attempt =
    answered (format_response settings session) (get_fallback_response player_message)
      (ask_model api settings attempt)

unfoldable pub names_of : List Action → List String
names_of [] = []
names_of (a ∷ rest) = a.character_name ∷ names_of rest

unfoldable pub format_batch_response : List Action → String → String
unfolding join_texts names_of
format_batch_response actions response =
    "🎭 本轮行动结果 (" +++ join_texts ", " (names_of actions) +++ ")\n\n" +++ response

unfoldable pub attempt_lines : List Action → List String
unfolding take_text
attempt_lines [] = []
attempt_lines (a ∷ rest) =
    ("• " +++ a.character_name +++ " 尝试 " +++ take_text 20 a.action +++ "...") ∷ attempt_lines rest

unfoldable pub get_batch_fallback_response : List Action → String
unfolding join_texts attempt_lines
get_batch_fallback_response actions =
    join_texts "\n" ("🎲 本轮行动处理中...\n" ∷ attempt_lines actions ++ "\n请稍等，DM正在思考结果。" ∷ [])

unfoldable pub generate_batch_response : LlmApi → EngineSettings → List Action → ℕ → String
unfolding format_batch_response get_batch_fallback_response ask_model answered
generate_batch_response api settings actions attempt =
    answered (format_batch_response actions) (get_batch_fallback_response actions)
      (ask_model api settings attempt)
