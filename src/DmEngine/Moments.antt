-- ===== src/DmEngine/Moments.antt =====
-- When services/dm_engine.py asks for an image and for a summary, and how the tension moves.
use mai_bot_trpg_plugin.Prelude.{
  ℕ, ◌≤◌, ◌<◌, String, ◌≡◌, Bool, true, ◌&&◌, ◌||◌, List, ◌++◌, arith, length, length-append,
  length-last, leb, ◌⊎◌,
}
use mai_bot_trpg_plugin.Prelude.Chars.{lower}
use mai_bot_trpg_plugin.Session.World.{HistoryEntry}
use mai_bot_trpg_plugin.Session.Story.{add_key_event}
use mai_bot_trpg_plugin.Session.Defs.{
  TrpgSession, trim_history, shift_indices, mark_summary, mark_image,
}
use mai_bot_trpg_plugin.DmEngine.Story.{
  count_keywords, climax_keywords, tension_up_keywords, tension_down_keywords, detect_climax,
  update_tension_level, should_update_summary,
}

-- The tension stays in 0 to 10. Without a keyword of either list it stays as it is, and it
-- rises or falls with the number of keywords of the two lists, up to the ends of the range.
pub update_tension_level_lem :
    (text : String) (s : TrpgSession)
    → s.story_context.tension_level ≤ 10
    → let level = s.story_context.tension_level in
      let after = (update_tension_level text s).story_context.tension_level in
      let up = count_keywords tension_up_keywords (lower text) in
      let down = count_keywords tension_down_keywords (lower text) in
      (after ≤ 10)
      × (up ≡ down → after ≡ level)
      × (down < up → (level < after) ⊎ (level ≡ 10))
      × (up < down → (after < level) ⊎ (level ≡ 0))
unfolding update_tension_level
update_tension_level_lem text s h =
    (omega arith, λ e. omega arith, λ lt. ground arith, λ lt. ground arith)

-- The history after more entries were written.
abbrev pub continued : List HistoryEntry → TrpgSession → TrpgSession
continued entries s = record s { history = s.history ++ entries }

-- After a summary is written, the next is due exactly when ten more entries are there.
pub should_update_summary-mark_summary :
    (summary : String) (entries : List HistoryEntry) (s : TrpgSession)
    → should_update_summary (continued entries (mark_summary summary s)) ≡ leb 10 (length entries)
unfolding should_update_summary mark_summary
should_update_summary-mark_summary summary entries s =
    ground (arith, length-append s.history entries)

-- After an image, a climax is found only behind five more entries, and then exactly where the response has two of the
-- keywords, or one at a tension of 7 and more.
pub detect_climax-mark_image :
    (text : String) (entries : List HistoryEntry) (s : TrpgSession)
    → let count = count_keywords climax_keywords (lower text) in
      detect_climax true text (continued entries (mark_image s)) ≡ (
        leb 5 (length entries)
        && (leb 2 count || leb 7 s.story_context.tension_level && leb 1 count))
unfolding detect_climax mark_image add_key_event
detect_climax-mark_image text entries s = ground (arith, length-append s.history entries)

-- Cutting the history to ten entries or more changes neither whether a summary is due nor whether a
-- response is a climax.
pub trim_history_moments :
    (bound now : ℕ) (enabled : Bool) (text : String) (s : TrpgSession)
    → 10 ≤ bound
    → let t = (trim_history bound now s).0 in
      (should_update_summary t ≡ should_update_summary s)
      × (detect_climax enabled text t ≡ detect_climax enabled text s)
unfolding trim_history should_update_summary detect_climax shift_indices
trim_history_moments bound now enabled text s h =
    (ground (arith, length-last bound s.history), ground (arith, length-last bound s.history))
