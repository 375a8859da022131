-- ===== src/Handlers/Answers.antt =====
-- What a round and a message of components/handlers.py come to.
use mai_bot_trpg_plugin.Prelude.{
  ℕ, String, ◌≡◌, ◌≢◌, refl, ap, length, inl, inr, Bool, true, false, Option, some, List, [], ◌∷◌,
  Bool-cases, contains, string_eq, ◌==◌, beq_refl,
}
use mai_bot_trpg_plugin.Prelude.Dict.{Dict, lookup, insert, values, lookup-insert}
use mai_bot_trpg_plugin.Storage.Defs.{has_active_session, get_players_in_session}
use mai_bot_trpg_plugin.Handlers.Collector.{
  Action, ActionCollector, add_action, get_missing_players, get_and_clear, mark_processing,
}
use mai_bot_trpg_plugin.Handlers.Missing.{IsWaiting, add_action-all_ready}
use mai_bot_trpg_plugin.Handlers.Rounds.{
  Table, Sent, announce, missing_names, acted_ids, answer_actions, answer_round, process_found,
  process_collected_actions, open_collector, progress, finish_round, handle_multiplayer_action,
}

-- The collector of a stream has no action and is open.
abbrev pub IsCleared : Option ActionCollector → Type 0
IsCleared o = (d : ActionCollector) × (o ≡ some d) × (d.actions ≡ []) × (d.is_processing ≡ false)

values-insert :
    (u : String) (a : Action) (d : Dict String Action)
    → (x : Action) × (xs : List Action) × (values (insert u a d) ≡ x ∷ xs)
unfolding insert values
values-insert u a [] = (a, [], refl)
values-insert u a ((w, b) ∷ d) = elim (Bool-cases (w == u)) [
  | inl here ↦ (a, values d, rw here)
  | inr other ↦ (b, values (insert u a d), rw other)
]

values-add_action :
    (u name action : String) (now : ℕ) (c : ActionCollector)
    → c.is_processing ≡ false
    → (x : Action) × (xs : List Action) × (values (add_action u name action now c).0.actions
        ≡ x ∷ xs)
unfolding add_action
values-add_action u name action now c h = rw h (values-insert u _ c.actions)

answer_round-active :
    (stream_id : String) (timeout : Bool) (t : Table) (actions : List Action) (x : Action)
    (xs : List Action)
    → has_active_session stream_id t.storage ≡ true
    → actions ≡ x ∷ xs
    → (note : Sent) × (answer_round stream_id timeout t.storage actions
        ≡ note ∷ answer_actions stream_id t.storage actions ∷ [])
answer_round-active stream_id timeout t actions x xs h e = rw e (
  announce timeout (length (x ∷ xs))
      (missing_names (acted_ids (x ∷ xs)) (get_players_in_session stream_id t.storage)),
  unfold answer_round in rw h,
)

-- The actions of a stream with an active session are answered once, all together, and taken out.
process_collected_actions-answers :
    (stream_id : String) (timeout : Bool) (t : Table) (c : ActionCollector) (x : Action)
    (xs : List Action)
    → has_active_session stream_id t.storage ≡ true
    → lookup stream_id t.collectors ≡ some c
    → values c.actions ≡ x ∷ xs
    → let (done, sent) = process_collected_actions stream_id timeout t in
      IsCleared (lookup stream_id done.collectors)
      × (done.storage ≡ t.storage)
      × ((note : Sent) × (sent ≡ note ∷ answer_actions stream_id t.storage (values c.actions) ∷ []))
process_collected_actions-answers stream_id timeout t c x xs h e filled =
    unfold process_collected_actions in
    rw e (
      unfold process_found get_and_clear mark_processing in
      (
        (
          (get_and_clear (mark_processing c)).0,
          rw (lookup-insert, beq_refl stream_id) refl,
          refl,
          refl,
        ),
        refl,
        answer_round-active stream_id timeout t (values c.actions) x xs h filled,
      ))

-- With the setting to process when all are ready, in a stream with an active session, while its
-- collector waits, the action of a player is taken in.
-- Where players are missing after it, only the progress is sent. Where nobody is missing, all
-- actions of the round, this one included, are answered in the same call, and the collector is
-- empty and open for the next round.
pub handle_multiplayer_action-answers :
    (stream_id u name action : String) (now : ℕ) (t : Table) (c : ActionCollector)
    → has_active_session stream_id t.storage ≡ true
    → lookup stream_id t.collectors ≡ some c
    → IsWaiting c
    → contains u c.player_ids ≡ true
    → let (after, added) = add_action u name action now c in
      let (done, sent) = handle_multiplayer_action true stream_id u name action now t in
      (done.storage ≡ t.storage)
      × (get_missing_players after ≢ []
          → (sent ≡ progress name added ∷ []) × (lookup stream_id done.collectors ≡ some after))
      × (get_missing_players after ≡ []
          → IsCleared (lookup stream_id done.collectors)
            × ((note : Sent) × (sent
                  ≡ progress name added
                    ∷ note
                    ∷ answer_actions stream_id t.storage (values after.actions)
                    ∷ [])))
handle_multiplayer_action-answers stream_id u name action now t c active e h member =
    let (after, added) = add_action u name action now c in
    let (goes_on, ready) = add_action-all_ready u name action now c h member in
    let kept : Table = record t { collectors = insert stream_id after t.collectors } in
    let here : lookup stream_id kept.collectors ≡ some after =
      rw (lookup-insert, beq_refl stream_id) refl in
    let (x, xs, filled) = values-add_action u name action now c h.open_ in
    let opened : ((ids : List String) → open_collector stream_id ids (some c) ≡ c) =
      λ ids. unfold open_collector in rw h.open_ in
    unfold handle_multiplayer_action in
    rw (e, opened)
      (elim (Bool-cases added.all_ready) [
        | inl all_ready ↦
            let (cleared, storage, (note, sent)) =
              process_collected_actions-answers stream_id false kept after x xs active here
                filled in
            rw all_ready (
              unfold finish_round in
              (
                storage,
                λ missing. absurd (missing (ready.0 all_ready)),
                λ _. (cleared, (note, ap (λ more. progress name added ∷ more) sent)),
              ))
        | inr waits ↦ rw waits (
            unfold finish_round in
            (refl, λ _. (refl, here), λ nobody. absurd (cc (waits, ready.1 nobody))))
      ])
