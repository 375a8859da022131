-- ===== src/DmEngine/Settle.antt =====
-- What `apply_state_changes` of services/dm_engine.py does to each character.
use mai_bot_trpg_plugin.Prelude.{
  ℕ, String, ◌≡◌, refl, sym, ◌∙◌, ap, true, Option, some, [], ◌∷◌, string_eq, if_keeps, is_some,
}
use mai_bot_trpg_plugin.Prelude.Int.{ℤ}
use mai_bot_trpg_plugin.Prelude.Dict.{Dict, lookup, HasDistinctKeys}
use mai_bot_trpg_plugin.Json.{◌>>=◌}
use mai_bot_trpg_plugin.Player.Defs.{Player}
use mai_bot_trpg_plugin.Session.Defs.{TrpgSession}
use mai_bot_trpg_plugin.Storage.Defs.{Storage, get_player, save_session}
use mai_bot_trpg_plugin.Storage.RoundTrip.{get_player-players}
use mai_bot_trpg_plugin.DmEngine.Changes.{GameStateChange, is_filled}
use mai_bot_trpg_plugin.DmEngine.Apply.{
  Worked, Applied, change_hp, change_mp, change_attrs, gain_items, lose_items, after_notes,
  for_users, change_world, change_players, apply_state_changes,
}
use mai_bot_trpg_plugin.DmEngine.Work.{
  AllWritable, IsSafe, AllValues, all_values, AllNumeric, change_hp-IsSafe, change_mp-IsSafe,
  change_attrs-IsSafe, gain_items-IsSafe, lose_items-IsSafe,
}
use mai_bot_trpg_plugin.DmEngine.Users.{settle, bind_twice, after_notes_lem, for_users-Settled}

-- The changes of one character, in the order in which they are applied.
unfoldable pub settled : ℕ → GameStateChange → String → Player → Player
unfolding lookup change_hp change_mp change_attrs gain_items lose_items
settled now c w p = settle (lose_items now) c.item_losses w (
    settle (gain_items now) c.item_gains w (
      settle change_attrs c.attr_changes w
        (settle (change_mp now) c.mp_changes w (settle (change_hp now) c.hp_changes w p))))

-- No user has two entries in a table, and the attributes that change are numbers.
pub record IsSound (c : GameStateChange) : Type 0 where
  pub hp_users : HasDistinctKeys c.hp_changes
  pub mp_users : HasDistinctKeys c.mp_changes
  pub attr_users : HasDistinctKeys c.attr_changes
  pub gain_users : HasDistinctKeys c.item_gains
  pub loss_users : HasDistinctKeys c.item_losses
  pub numeric : AllValues AllNumeric c.attr_changes

-- A loop behind another.
settled_next :
    {V : Type 0} (work : V → Player → Worked) (stream_id : String) (d : Dict String V)
    (f : String → Player → Player) (st : Storage) (r : Applied)
    → HasDistinctKeys d
    → AllValues (λ v. IsSafe (work v)) d
    → is_some r.1 ≡ true
    → AllWritable stream_id r.0
    → ((w : String)
        → get_player stream_id w r.0 ≡ (get_player stream_id w st >>= λ p. some (f w p)))
    → let t = after_notes (for_users work stream_id d) r in
      (is_some t.1 ≡ true)
      × AllWritable stream_id t.0
      × ((w : String)
          → get_player stream_id w t.0
            ≡ (get_player stream_id w st >>= λ p. some (settle work d w (f w p))))
settled_next work stream_id d f st r h safe ok k before =
    let (ok2, writable, after) = for_users-Settled work stream_id d r.0 h safe k in
    let (same, done) = after_notes_lem (for_users work stream_id d) r ok in
    (
      done ∙ ok2,
      λ w p e. writable w p (sym (ap (get_player stream_id w) same) ∙ e),
      λ w.
          ap (get_player stream_id w) same
          ∙ after w
          ∙ ap (λ (o : Option Player). o >>= λ p. some (settle work d w p)) (before w)
          ∙ bind_twice (get_player stream_id w st) (f w) (settle work d w)
              (λ p. settle work d w (f w p)) (λ p. refl),
    )

attrs-IsSafe :
    (d : Dict String (Dict String ℤ))
    → AllValues AllNumeric d
    → AllValues (λ v. IsSafe (change_attrs v)) d
attrs-IsSafe [] h = tt
attrs-IsSafe ((u, v) ∷ d) (h, hs) = (change_attrs-IsSafe v h, attrs-IsSafe d hs)

change_players-settled :
    (c : GameStateChange) (stream_id : String) (now : ℕ) (st : Storage)
    → IsSound c
    → AllWritable stream_id st
    → let r = change_players c stream_id now st in
      (is_some r.1 ≡ true)
      × AllWritable stream_id r.0
      × ((w : String)
          → get_player stream_id w r.0
            ≡ (get_player stream_id w st >>= λ p. some (settled now c w p)))
unfolding change_players settled
change_players-settled c stream_id now st h k =
    let hp =
      for_users-Settled (change_hp now) stream_id c.hp_changes st h.hp_users
        (all_values _ (change_hp-IsSafe now) c.hp_changes) k in
    let mp =
      settled_next (change_mp now) stream_id c.mp_changes _ st _ h.mp_users
        (all_values _ (change_mp-IsSafe now) c.mp_changes) hp.0 hp.1 hp.2 in
    let attrs =
      settled_next change_attrs stream_id c.attr_changes _ st _ h.attr_users
        (attrs-IsSafe c.attr_changes h.numeric) mp.0 mp.1 mp.2 in
    let gains =
      settled_next (gain_items now) stream_id c.item_gains _ st _ h.gain_users
        (all_values _ (gain_items-IsSafe now) c.item_gains) attrs.0 attrs.1 attrs.2 in
    settled_next (lose_items now) stream_id c.item_losses _ st _ h.loss_users
      (all_values _ (lose_items-IsSafe now) c.item_losses) gains.0 gains.1 gains.2

change_world-players :
    (world_changes : Dict String String) (now : ℕ) (s : TrpgSession) (st : Storage)
    → ((change_world world_changes now s st).0.players ≡ st.players)
      × (is_some (change_world world_changes now s st).1 ≡ true)
unfolding change_world
change_world-players world_changes now s st = (
  if_keeps (λ (t : Storage). t.players ≡ st.players) (is_filled world_changes)
      (λ _. unfold save_session in refl) (λ _. refl),
  refl,
)

-- Where no character of the stream has `to_dict`, `get_attribute` or `set_attribute` overwritten, no
-- user has two entries in a table and the attributes that change are numbers, the changes are applied
-- without an error, and each character of the stream ends as its own changes make it, one after the
-- other, whatever the others get; a user without changes keeps the character as it is.
pub apply_state_changes-settled :
    (c : GameStateChange) (s : TrpgSession) (now : ℕ) (st : Storage)
    → IsSound c
    → AllWritable s.stream_id st
    → let (t, notes) = apply_state_changes c s now st in
      (is_some notes ≡ true)
      × ((w : String)
          → get_player s.stream_id w t
            ≡ (get_player s.stream_id w st >>= λ p. some (settled now c w p)))
unfolding apply_state_changes
apply_state_changes-settled c s now st h k =
    let r = change_players c s.stream_id now st in
    let (ok, _, after) = change_players-settled c s.stream_id now st h k in
    let (players, done) = change_world-players c.world_changes now s r.0 in
    let (same, all_done) = after_notes_lem (change_world c.world_changes now s) r ok in
    (
      all_done ∙ done,
      λ w.
          ap (get_player s.stream_id w) same
          ∙ get_player-players s.stream_id w (change_world c.world_changes now s r.0).0 r.0 players
          ∙ after w,
    )
