-- ===== src/Session/Tests.antt =====
-- Runs of models/session.py on concrete sessions.
use mai_bot_trpg_plugin.Prelude.{
  ℕ, ◌+◌, ◌-◌, ◌≤◌, ◌≡◌, List, [], ◌∷◌, ◌++◌, arith, length, take, drop, none, some,
}
use mai_bot_trpg_plugin.Json.{obj, end}
use mai_bot_trpg_plugin.Session.Defs.{
  TrpgSession, new_session, add_history, trim_history, mark_summary,
}
use mai_bot_trpg_plugin.Session.Codec.{
  session_to_dict, session_from_dict, session_from_dict-to_dict,
}
use mai_bot_trpg_plugin.Session.Trim.{trim_history_oldest, trim_history_pending}
use mai_bot_trpg_plugin.Session.WellFormed.{
  IsWellFormed, Change, join, leave, history, summarised, pictured, clue, trim, change_all,
  change_all-IsWellFormed,
}

-- Three entries, of which the summary covers two.
abbrev pub tale : TrpgSession
tale =
    let s = new_session "g1" "Avalon" 1 in
    add_history "dm" "c" 4
      (mark_summary "so far" (add_history "dm" "b" 3 (add_history "dm" "a" 2 s)))

trim_history_oldest_example :
    let (t, removed) = trim_history 2 9 tale in
    (removed ≡ length tale.history - 2)
    × (take removed tale.history ++ t.history ≡ tale.history)
    × (length t.history + removed ≡ length tale.history)
    × (length t.history ≤ 2)
trim_history_oldest_example = trim_history_oldest 2 9 tale (omega arith)

trim_history_pending_example :
    let (t, removed) = trim_history 2 9 tale in
    (removed ≤ tale.story_context.last_summary_history_index
      → drop t.story_context.last_summary_history_index t.history
        ≡ drop tale.story_context.last_summary_history_index tale.history)
    × (removed ≤ tale.story_context.last_image_history_index
        → drop t.story_context.last_image_history_index t.history
          ≡ drop tale.story_context.last_image_history_index tale.history)
trim_history_pending_example = trim_history_pending 2 9 tale (omega arith)

session_from_dict-to_dict_example : session_from_dict 5 (session_to_dict tale) ≡ some tale
session_from_dict-to_dict_example = session_from_dict-to_dict 5 tale

abbrev fresh : TrpgSession
fresh = new_session "g1" "Avalon" 1

fresh-IsWellFormed : IsWellFormed fresh
fresh-IsWellFormed = record {
  members = tt;
  story = record {
    events = omega arith;
    threads = tt;
    clues = tt;
    image = omega arith;
    summary = omega arith;
  };
}

abbrev evening : List (ℕ × Change)
evening =
    (2, join "u1")
    ∷ (3, join "u1")
    ∷ (4, history "player" "look" (some "u1") none (obj end))
    ∷ (5, clue "a map")
    ∷ (6, clue "a map")
    ∷ (7, summarised "they looked")
    ∷ (8, history "dm" "you see" none none (obj end))
    ∷ (9, trim 1)
    ∷ (10, pictured)
    ∷ (11, leave "u1")
    ∷ []

change_all-IsWellFormed_example : IsWellFormed (change_all evening fresh)
change_all-IsWellFormed_example = change_all-IsWellFormed evening fresh fresh-IsWellFormed
