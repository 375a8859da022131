-- ===== src/Handlers/Rounds.antt =====
-- `_handle_multiplayer_action` and `_process_collected_actions` of components/handlers.py: the players of a
-- stream act, and when all have acted, or the time is over, the actions are answered together. The
-- waiting is not modelled: that it is over is a call of `process_collected_actions`. What the language model is
-- asked is the last thing that is sent.
use mai_bot_trpg_plugin.Prelude.{
  ℕ, String, Bool, true, false, ◌&&◌, Option, none, some, List, [], ◌∷◌, length, contains,
  string_eq, if◌then◌else◌,
}
use mai_bot_trpg_plugin.Prelude.Dict.{Dict, lookup, insert}
use mai_bot_trpg_plugin.Player.Defs.{Player}
use mai_bot_trpg_plugin.Storage.Defs.{
  Storage, has_active_session, get_player, get_players_in_session,
}
use mai_bot_trpg_plugin.DmEngine.Changes.{is_filled}
use mai_bot_trpg_plugin.Handlers.Collector.{
  Action, ActionCollector, Added, new_collector, add_action, get_and_clear, mark_processing,
}

-- The storage, and the collectors of the streams (`_action_collectors`).
pub record Table : Type 0 where
  pub storage : Storage
  pub collectors : Dict String ActionCollector

pub data Sent : Type 0 where
  acknowledged recorded : String → Sent
  waiting : (current total : ℕ) → Sent
  has_acted : (name : String) (current total : ℕ) → Sent
  time_over : (count : ℕ) (missing : List String) → Sent
  all_acted : (count : ℕ) → Sent
  answer_one : (message : String) → Option Player → Sent
  answer_all : List Action → Sent

abbrev pub acted_ids : List Action → List String
acted_ids [] = []
acted_ids (a ∷ as_) = a.user_id ∷ acted_ids as_

-- The names of the players who are not among those who acted.
unfoldable pub missing_names : List String → List Player → List String
unfolding contains
missing_names acted [] = []
missing_names acted (p ∷ ps) =
    let rest = missing_names acted ps in
    if contains p.user_id acted then rest else p.character_name ∷ rest

unfoldable pub announce : Bool → ℕ → List String → Sent
announce timeout count missing =
    if timeout && is_filled missing then time_over count missing else all_acted count

-- One action is answered alone, several together.
unfoldable pub answer_actions : String → Storage → List Action → Sent
unfolding get_player
answer_actions stream_id st [] = answer_all []
answer_actions stream_id st (a ∷ []) = answer_one a.action (get_player stream_id a.user_id st)
answer_actions stream_id st (a ∷ b ∷ as_) = answer_all (a ∷ b ∷ as_)

-- What is sent for the actions that were taken out.
unfoldable pub answer_round : String → Bool → Storage → List Action → List Sent
unfolding has_active_session missing_names get_players_in_session announce answer_actions
answer_round stream_id timeout st [] = []
answer_round stream_id timeout st (a ∷ as_) =
    let actions = a ∷ as_ in
    if has_active_session stream_id st
    then announce timeout (length actions)
        (missing_names (acted_ids actions) (get_players_in_session stream_id st))
      ∷ answer_actions stream_id st actions
      ∷ []
    else []

unfoldable pub process_found : String → Bool → Option ActionCollector → Table → Table × List Sent
unfolding mark_processing get_and_clear answer_round insert
process_found stream_id timeout none t = (t, [])
process_found stream_id timeout (some c) t =
    let (cleared, actions) = get_and_clear (mark_processing c) in
    (
      record t { collectors = insert stream_id cleared t.collectors },
      answer_round stream_id timeout t.storage actions,
    )

unfoldable pub process_collected_actions : String → Bool → Table → Table × List Sent
unfolding lookup process_found
process_collected_actions stream_id timeout t =
    process_found stream_id timeout (lookup stream_id t.collectors) t

unfoldable pub player_ids_of : List Player → List String
player_ids_of [] = []
player_ids_of (p ∷ ps) = p.user_id ∷ player_ids_of ps

-- The collector of a stream, a new one where there is none or where it is being processed.
unfoldable pub open_collector : String → List String → Option ActionCollector → ActionCollector
unfolding new_collector
open_collector stream_id ids none = new_collector stream_id (length ids) ids
open_collector stream_id ids (some c) =
    if c.is_processing then new_collector stream_id (length ids) ids else c

unfoldable pub progress : String → Added → Sent
progress character_name a =
    if a.is_first
    then waiting a.current_count a.total_count
    else has_acted character_name a.current_count a.total_count

-- The last step of `_handle_multiplayer_action`.
unfoldable pub finish_round : Bool → String → Table → Table × List Sent
unfolding process_collected_actions
finish_round true stream_id t = process_collected_actions stream_id false t
finish_round false stream_id t = (t, [])

unfoldable pub handle_multiplayer_action :
    Bool → String → String → String → String → ℕ → Table → Table × List Sent
unfolding lookup insert get_players_in_session player_ids_of open_collector add_action progress
    finish_round
handle_multiplayer_action process_when_all_ready stream_id user_id character_name action now t =
    let ids = player_ids_of (get_players_in_session stream_id t.storage) in
    let opened = open_collector stream_id ids (lookup stream_id t.collectors) in
    let (c, added) = add_action user_id character_name action now opened in
    let kept : Table = record t { collectors = insert stream_id c t.collectors } in
    let (done, sent) = finish_round (added.all_ready && process_when_all_ready) stream_id kept in
    (done, progress character_name added ∷ sent)
