-- ===== src/Handlers/Tests.antt =====
-- Runs of components/handlers.py.
use mai_bot_trpg_plugin.Prelude.{
  arith, none, ℕ, zero, suc, ◌<◌, ◌≡◌, ◌≢◌, ◌↔◌, refl, inl, true, false, ◌&&◌, some, [], ◌∷◌,
  string_eq, contains, if◌then◌else◌,
}
use mai_bot_trpg_plugin.Prelude.Dict.{keys, lookup, values}
use mai_bot_trpg_plugin.Session.Defs.{add_history, mark_summary}
use mai_bot_trpg_plugin.Storage.Defs.{has_active_session, get_session, active_in, is_group_enabled}
use mai_bot_trpg_plugin.Storage.Tests.{table_one}
use mai_bot_trpg_plugin.DmEngine.Story.{starts_with}
use mai_bot_trpg_plugin.Handlers.Collector.{
  ActionCollector, new_collector, to_set, add_action, get_missing_players,
}
use mai_bot_trpg_plugin.Handlers.Missing.{IsWaiting, add_action-all_ready}
use mai_bot_trpg_plugin.Handlers.Reading.{generate_action_acknowledgment}
use mai_bot_trpg_plugin.Handlers.Rounds.{
  Table, Sent, progress, answer_actions, handle_multiplayer_action,
}
use mai_bot_trpg_plugin.Handlers.Execute.{Settings, Message, untouched, is_trpg_command, execute}
use mai_bot_trpg_plugin.Session.Tests.{tale}
use mai_bot_trpg_plugin.DmEngine.Reply.{
  LlmApi, EngineSettings, ask_model, strip, hints_of, get_fallback_response, generate_dm_response,
}
use mai_bot_trpg_plugin.Handlers.Response.{
  first_answer, Services, ResponseSettings, usable, use_response, generate_and_send_dm_response,
}
use mai_bot_trpg_plugin.Handlers.Retries.{IsBlankAt, generate_and_send_dm_response-attempts}
use mai_bot_trpg_plugin.Handlers.Answers.{IsCleared, handle_multiplayer_action-answers}
use mai_bot_trpg_plugin.Handlers.Passing.{execute_outside, execute_within}

abbrev two_players : ActionCollector
two_players = new_collector "g1" 2 ("u1" ∷ "u2" ∷ [])

two_players-IsWaiting : IsWaiting two_players
unfolding new_collector to_set contains keys
two_players-IsWaiting = record {
  open_ = refl;
  players = (refl, (refl, tt));
  counted = refl;
  acted = tt;
  listed = λ u h. absurd (cc h);
}

add_action-all_ready_example :
    let (t, added) = add_action "u1" "Ada" "look" 3 two_players in
    IsWaiting t × ((added.all_ready ≡ true) ↔ (get_missing_players t ≡ []))
unfolding new_collector to_set contains
add_action-all_ready_example =
    add_action-all_ready "u1" "Ada" "look" 3 two_players two_players-IsWaiting refl

abbrev round_table : Table
round_table = record { storage = table_one; collectors = ("g1", two_players) ∷ [] }

table_one_active : has_active_session "g1" table_one ≡ true
unfolding has_active_session get_session active_in add_history mark_summary
table_one_active = refl

round_waits : lookup "g1" round_table.collectors ≡ some two_players
unfolding lookup
round_waits = refl

handle_multiplayer_action-answers_example :
    let (after, added) = add_action "u1" "Ada" "look" 3 two_players in
    let (done, sent) = handle_multiplayer_action true "g1" "u1" "Ada" "look" 3 round_table in
    (done.storage ≡ table_one)
    × (get_missing_players after ≢ []
        → (sent ≡ progress "Ada" added ∷ []) × (lookup "g1" done.collectors ≡ some after))
    × (get_missing_players after ≡ []
        → IsCleared (lookup "g1" done.collectors)
          × ((note : Sent) × (sent
                ≡ progress "Ada" added
                  ∷ note
                  ∷ answer_actions "g1" table_one (values after.actions)
                  ∷ [])))
unfolding new_collector to_set contains
handle_multiplayer_action-answers_example =
    handle_multiplayer_action-answers "g1" "u1" "Ada" "look" 3 round_table two_players
      table_one_active round_waits two_players-IsWaiting refl

abbrev settings : Settings
settings = record {
  takeover_message = true;
  block_other_plugins = true;
  allow_mid_join = true;
  mid_join_require_confirm = false;
  show_action_feedback = true;
  auto_narrative = true;
  batch_actions = true;
  process_when_all_ready = true;
}

abbrev spoken : Message
spoken = record { stream_id = "g1"; plain_text = "*look*"; user_id = "u1" }

abbrev elsewhere : Message
elsewhere = record spoken { stream_id = "g2" }

ack_example :
    generate_action_acknowledgment "*检查 door*" "Ada" ≡ "🎭 Ada: *检查 door*\n🎲 需要感知检定 `/r d20`"
unfolding generate_action_acknowledgment
ack_example = refl

execute_outside_example : execute settings elsewhere 9 round_table ≡ untouched true round_table
unfolding is_group_enabled contains
execute_outside_example = execute_outside settings elsewhere 9 round_table (inl refl)

execute_within_example :
    let r = execute settings spoken 9 round_table in
    let command = starts_with "/" "*look*" in
    (r.continues ≡ (if command && is_trpg_command "*look*" then false else false))
    × (command ≡ true → (r.table ≡ round_table) × (r.sent ≡ []))
unfolding is_group_enabled contains
execute_within_example =
    execute_within settings spoken 9 round_table refl refl refl refl table_one_active

-- The model answers with a blank at the first attempt, fails at the second, and then gives a response.
abbrev slow_host : LlmApi
slow_host = record {
  get_available_models = λ k. some (("replyer", "big") ∷ []);
  generate_with_model = elim [
    | zero ↦ λ model. some (true, " ")
    | suc zero ↦ λ model. none
    | suc (suc k) ↦ λ model. some (true, "Ow! [HP -5]")
  ];
}

abbrev slow_services : Services
slow_services = record { llm = slow_host; summary = λ s. none; image = λ s text. false }

abbrev plain_engine : EngineSettings
plain_engine = record { dm_response_model = ""; use_maibot_replyer = true; include_hints = false }

abbrev three_attempts : ResponseSettings
three_attempts = record {
  engine = plain_engine;
  max_retries = 3;
  image_enabled = false;
  climax_auto_image = true;
}

-- The third attempt, which would work, is not made.
no_third_attempt :
    first_answer (generate_dm_response slow_host plain_engine tale "look around") 0 3
    ≡ some "你尝试look around...请稍等，DM正在思考结果。"
unfolding first_answer usable generate_dm_response
no_third_attempt = refl

first_blank : IsBlankAt slow_host plain_engine tale 0
unfolding ask_model strip hints_of
first_blank = (" ", refl, refl)

second_fails : ask_model slow_host plain_engine 1 ≡ none
unfolding ask_model
second_fails = refl

blanks_before : (j : ℕ) → j < 1 → IsBlankAt slow_host plain_engine tale j
blanks_before zero h = first_blank
blanks_before (suc j) h = absurd (omega arith)

generate_and_send_dm_response-attempts_example :
    generate_and_send_dm_response slow_services three_attempts "g1" 9 tale "look" none table_one
    ≡ use_response slow_services three_attempts "g1"
        (λ clean. clean)
        ""
        9
        tale
        (some (get_fallback_response "look"))
        table_one
generate_and_send_dm_response-attempts_example =
    ((generate_and_send_dm_response-attempts slow_services three_attempts "g1" 9 tale "look" none
          table_one).1
        1 (omega arith) blanks_before).0
      second_fails
