-- ===== src/Session/Story.antt =====
-- class StoryContext of models/session.py. The two indices into the history and the tension are
-- never negative in the program, and are natural numbers here.
use mai_bot_trpg_plugin.Prelude.{
  ℕ, String, List, [], ◌∷◌, ◌++◌, length, last, contains, remove, string_eq, ltb, if◌then◌else◌,
}

pub record StoryContext : Type 0 where
  pub current_chapter : String
  pub current_scene : String
  pub story_summary : String
  pub key_events : List String
  pub open_threads : List String
  pub discovered_clues : List String
  pub tension_level : ℕ
  pub last_image_history_index : ℕ
  pub last_summary_history_index : ℕ

abbrev pub default_story : StoryContext
default_story = record {
  current_chapter = "";
  current_scene = "";
  story_summary = "";
  key_events = [];
  open_threads = [];
  discovered_clues = [];
  tension_level = 3;
  last_image_history_index = 0;
  last_summary_history_index = 0;
}

abbrev pub max_key_events : ℕ
max_key_events = 20

unfoldable pub add_key_event : String → StoryContext → StoryContext
unfolding last
add_key_event event ctx =
    let events = ctx.key_events ++ event ∷ [] in
    if ltb max_key_events (length events)
    then record ctx { key_events = last max_key_events events }
    else record ctx { key_events = events }

unfoldable pub add_clue : String → StoryContext → StoryContext
add_clue clue ctx =
    if contains clue ctx.discovered_clues
    then ctx
    else record ctx { discovered_clues = ctx.discovered_clues ++ clue ∷ [] }

unfoldable pub add_open_thread : String → StoryContext → StoryContext
add_open_thread thread ctx =
    if contains thread ctx.open_threads
    then ctx
    else record ctx { open_threads = ctx.open_threads ++ thread ∷ [] }

unfoldable pub resolve_thread : String → StoryContext → StoryContext
resolve_thread thread ctx =
    if contains thread ctx.open_threads
    then record ctx { open_threads = remove thread ctx.open_threads }
    else ctx
