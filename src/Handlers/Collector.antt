-- ===== src/Handlers/Collector.antt =====
-- class ActionCollector of components/handlers.py. The lock and the tasks that wait are not modelled:
-- each method runs as a whole.
use mai_bot_trpg_plugin.Prelude.{
  ℕ, String, Bool, true, false, not, ◌&&◌, Option, none, some, List, [], ◌∷◌, contains, string_eq,
  leb, length, if◌then◌else◌, is_some,
}
use mai_bot_trpg_plugin.Prelude.Dict.{Dict, keys, values, has_key, insert}

pub record Action : Type 0 where
  pub user_id : String
  pub character_name : String
  pub action : String
  pub timestamp : ℕ

-- The players are a set, which is a list without repetition here.
pub record ActionCollector : Type 0 where
  pub stream_id : String
  pub total_players : ℕ
  pub player_ids : List String
  pub actions : Dict String Action
  pub first_action_time : Option ℕ
  pub is_processing : Bool

-- `set(player_ids)`
unfoldable pub to_set : List String → List String
unfolding contains
to_set [] = []
to_set (u ∷ us) = let rest = to_set us in if contains u rest then rest else u ∷ rest

unfoldable pub new_collector : String → ℕ → List String → ActionCollector
unfolding to_set
new_collector stream_id total_players player_ids = record {
  stream_id = stream_id;
  total_players = total_players;
  player_ids = to_set player_ids;
  actions = [];
  first_action_time = none;
  is_processing = false;
}

-- What `add_action` returns.
pub record Added : Type 0 where
  pub is_first : Bool
  pub all_ready : Bool
  pub current_count : ℕ
  pub total_count : ℕ

unfoldable pub add_action : String → String → String → ℕ → ActionCollector → ActionCollector × Added
unfolding has_key insert
add_action user_id character_name action now c =
    if c.is_processing
    then (
      c,
      record {
        is_first = false;
        all_ready = false;
        current_count = length c.actions;
        total_count = c.total_players;
      },
    )
    else let entry : Action = record {
      user_id = user_id;
      character_name = character_name;
      action = action;
      timestamp = now;
    } in
      let actions = insert user_id entry c.actions in
      (
        record c {
          actions = actions;
          first_action_time = elim c.first_action_time [ none ↦ some now | some t ↦ some t ];
        },
        record {
          is_first = not (is_some c.first_action_time) && not (has_key user_id c.actions);
          all_ready = leb c.total_players (length actions);
          current_count = length actions;
          total_count = c.total_players;
        },
      )

-- The ids that are not among those who acted.
unfoldable pub missing_from : List String → List String → List String
unfolding contains
missing_from acted [] = []
missing_from acted (u ∷ us) =
    let rest = missing_from acted us in if contains u acted then rest else u ∷ rest

unfoldable pub get_acted_players : ActionCollector → List String
unfolding keys
get_acted_players c = keys c.actions

unfoldable pub get_missing_players : ActionCollector → List String
unfolding missing_from get_acted_players
get_missing_players c = missing_from (get_acted_players c) c.player_ids

unfoldable pub get_and_clear : ActionCollector → ActionCollector × List Action
unfolding values
get_and_clear c =
    (record c { actions = []; first_action_time = none; is_processing = false }, values c.actions)

unfoldable pub get_action_count : ActionCollector → ℕ
get_action_count c = length c.actions

unfoldable pub mark_processing : ActionCollector → ActionCollector
mark_processing c = record c { is_processing = true }
