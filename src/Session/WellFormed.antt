-- ===== src/Session/WellFormed.antt =====
-- The invariant of a session of models/session.py under every operation on it.
use mai_bot_trpg_plugin.Prelude.{
  ℕ, String, ◌≤◌, Option, List, [], ◌∷◌, ◌++◌, arith, length, length-append, length-last, contains,
  string_eq, IsDistinct, append-IsDistinct, remove-IsDistinct, if_keeps, leb, ltb, ◌==◌, nat_eq,
}
use mai_bot_trpg_plugin.Json.{Value}
use mai_bot_trpg_plugin.Session.Story.{
  StoryContext, max_key_events, add_key_event, add_clue, add_open_thread, resolve_thread,
}
use mai_bot_trpg_plugin.Session.Defs.{
  TrpgSession, add_history_as, add_npc, add_player, remove_player, trim_history, mark_summary,
  mark_image,
}

pub record IsSound (ctx : StoryContext) (size : ℕ) : Type 0 where
  pub events : length ctx.key_events ≤ max_key_events
  pub threads : IsDistinct ctx.open_threads
  pub clues : IsDistinct ctx.discovered_clues
  pub image : ctx.last_image_history_index ≤ size
  pub summary : ctx.last_summary_history_index ≤ size

-- No player is listed twice, and the story context is sound for the history.
pub record IsWellFormed (s : TrpgSession) : Type 0 where
  pub members : IsDistinct s.player_ids
  pub story : IsSound s.story_context (length s.history)

add_key_event-IsSound :
    (event : String) (ctx : StoryContext) (size : ℕ)
    → IsSound ctx size
    → IsSound (add_key_event event ctx) size
unfolding add_key_event
add_key_event-IsSound event ctx size h =
    if_keeps (λ c. IsSound c size) (ltb max_key_events (length (ctx.key_events ++ event ∷ [])))
      (λ _. record {
        events = omega (arith, length-last max_key_events (ctx.key_events ++ event ∷ []));
        threads = h.threads;
        clues = h.clues;
        image = h.image;
        summary = h.summary;
      })
      (λ e. record {
        events = ground arith;
        threads = h.threads;
        clues = h.clues;
        image = h.image;
        summary = h.summary;
      })

add_clue-IsSound :
    (clue : String) (ctx : StoryContext) (size : ℕ)
    → IsSound ctx size
    → IsSound (add_clue clue ctx) size
unfolding add_clue
add_clue-IsSound clue ctx size h =
    if_keeps (λ c. IsSound c size) (contains clue ctx.discovered_clues) (λ _. h)
      (λ new. record {
        events = h.events;
        threads = h.threads;
        clues = append-IsDistinct clue ctx.discovered_clues new h.clues;
        image = h.image;
        summary = h.summary;
      })

add_open_thread-IsSound :
    (thread : String) (ctx : StoryContext) (size : ℕ)
    → IsSound ctx size
    → IsSound (add_open_thread thread ctx) size
unfolding add_open_thread
add_open_thread-IsSound thread ctx size h =
    if_keeps (λ c. IsSound c size) (contains thread ctx.open_threads) (λ _. h)
      (λ new. record {
        events = h.events;
        threads = append-IsDistinct thread ctx.open_threads new h.threads;
        clues = h.clues;
        image = h.image;
        summary = h.summary;
      })

resolve_thread-IsSound :
    (thread : String) (ctx : StoryContext) (size : ℕ)
    → IsSound ctx size
    → IsSound (resolve_thread thread ctx) size
unfolding resolve_thread
resolve_thread-IsSound thread ctx size h =
    if_keeps (λ c. IsSound c size) (contains thread ctx.open_threads)
      (λ _. record {
        events = h.events;
        threads = remove-IsDistinct thread ctx.open_threads h.threads;
        clues = h.clues;
        image = h.image;
        summary = h.summary;
      })
      (λ _. h)

IsSound-mono : {ctx : StoryContext} {m : ℕ} (n : ℕ) → IsSound ctx m → m ≤ n → IsSound ctx n
IsSound-mono n h le = record {
  events = h.events;
  threads = h.threads;
  clues = h.clues;
  image = omega (arith, h.image);
  summary = omega (arith, h.summary);
}

-- The calls that change a session.
pub data Change : Type 0 where
  history : (entry_type content : String) (user_id name : Option String) (extra : Value) → Change
  npc join leave clue thread resolved event summarised : String → Change
  pictured : Change
  trim : ℕ → Change

pub change : ℕ → Change → TrpgSession → TrpgSession
change now (history t c u n e) s = add_history_as t c u n e now s
change now (npc name) s = add_npc name now s
change now (join user) s = add_player user now s
change now (leave user) s = remove_player user now s
change now (clue c) s = record s { story_context = add_clue c s.story_context }
change now (thread t) s = record s { story_context = add_open_thread t s.story_context }
change now (resolved t) s = record s { story_context = resolve_thread t s.story_context }
change now (event e) s = record s { story_context = add_key_event e s.story_context }
change now (summarised text) s = mark_summary text s
change now pictured s = mark_image s
change now (trim bound) s = (trim_history bound now s).0

pub change_all : List (ℕ × Change) → TrpgSession → TrpgSession
unfolding change
change_all [] s = s
change_all ((now, c) ∷ cs) s = change_all cs (change now c s)

trim-IsWellFormed :
    (bound now : ℕ) (s : TrpgSession) → IsWellFormed s → IsWellFormed (trim_history bound now s).0
unfolding trim_history
trim-IsWellFormed bound now s h =
    if_keeps (λ (r : TrpgSession × ℕ). IsWellFormed r.0) (bound == 0) (λ _. h)
      (λ _.
        if_keeps (λ (r : TrpgSession × ℕ). IsWellFormed r.0) (leb (length s.history) bound) (λ _. h)
          (λ long. record {
            members = h.members;
            story = record {
              events = h.story.events;
              threads = h.story.threads;
              clues = h.story.clues;
              image = omega (arith, h.story.image, length-last bound s.history);
              summary = omega (arith, h.story.summary, length-last bound s.history);
            };
          }))

module _ (now : ℕ) (s : TrpgSession) (h : IsWellFormed s) where
  change-IsWellFormed : (c : Change) → IsWellFormed (change now c s)
  unfolding change
  change-IsWellFormed (history t c u n e) =
      unfold add_history_as in
      record {
        members = h.members;
        story = IsSound-mono _ h.story (omega (arith, length-append s.history _));
      }
  change-IsWellFormed (npc name) = unfold add_npc in record { members = h.members; story = h.story }
  change-IsWellFormed (join user) =
      unfold add_player in
      if_keeps IsWellFormed (contains user s.player_ids) (λ _. h)
        (λ new. record {
          members = append-IsDistinct user s.player_ids new h.members;
          story = h.story;
        })
  change-IsWellFormed (leave user) =
      unfold remove_player in
      if_keeps IsWellFormed (contains user s.player_ids)
        (λ _. record { members = remove-IsDistinct user s.player_ids h.members; story = h.story })
        (λ _. h)
  change-IsWellFormed (clue c) = record {
    members = h.members;
    story = add_clue-IsSound c s.story_context (length s.history) h.story;
  }
  change-IsWellFormed (thread t) = record {
    members = h.members;
    story = add_open_thread-IsSound t s.story_context (length s.history) h.story;
  }
  change-IsWellFormed (resolved t) = record {
    members = h.members;
    story = resolve_thread-IsSound t s.story_context (length s.history) h.story;
  }
  change-IsWellFormed (event e) = record {
    members = h.members;
    story = add_key_event-IsSound e s.story_context (length s.history) h.story;
  }
  change-IsWellFormed (summarised text) =
      unfold mark_summary in
      record {
        members = h.members;
        story = record {
          events = h.story.events;
          threads = h.story.threads;
          clues = h.story.clues;
          image = h.story.image;
          summary = omega arith;
        };
      }
  change-IsWellFormed pictured =
      unfold mark_image in
      record {
        members = h.members;
        story = add_key_event-IsSound _ _ (length s.history) (record {
          events = h.story.events;
          threads = h.story.threads;
          clues = h.story.clues;
          image = omega arith;
          summary = h.story.summary;
        });
      }
  change-IsWellFormed (trim bound) = trim-IsWellFormed bound now s h

-- From a well-formed session every sequence of changes leads to a well-formed one: members, clues
-- and open threads without repetition, at most 20 key events, and both indices in the history.
pub change_all-IsWellFormed :
    (cs : List (ℕ × Change)) (s : TrpgSession) → IsWellFormed s → IsWellFormed (change_all cs s)
unfolding change_all
change_all-IsWellFormed [] s h = h
change_all-IsWellFormed ((now, c) ∷ cs) s h =
    change_all-IsWellFormed cs (change now c s) (change-IsWellFormed now s h c)
