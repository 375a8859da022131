-- ===== src/Storage/Slots.antt =====
-- A save slot gives back what was saved.
use mai_bot_trpg_plugin.Prelude.{
  ℕ, String, ◌≡◌, refl, ◌∙◌, ap, true, false, Option, none, some, List, [], ◌∷◌, arith, string_eq,
  eq_iff, ◌==◌, if◌then◌else◌, beq_refl,
}
use mai_bot_trpg_plugin.Prelude.Dict.{Dict, lookup, lookup_or, values, lookup-insert}
use mai_bot_trpg_plugin.Json.{Value, Items, nil, cons, ◌>>=◌}
use mai_bot_trpg_plugin.Player.Defs.{Player}
use mai_bot_trpg_plugin.Player.Codec.{player_to_dict, player_from_dict, reborn, retarget_written}
use mai_bot_trpg_plugin.Player.Codec as PlayerCodec
use mai_bot_trpg_plugin.Storage.Files.{path_eq}
use mai_bot_trpg_plugin.Storage.Defs.{Storage, put_player, save_player, get_player}
use mai_bot_trpg_plugin.Storage.SlotDefs.{players_data, restore_players}

-- Each character lies under its own user, and no user occurs twice.
abbrev pub IsKeyed : Dict String Player → Type 0
IsKeyed [] = Unit
IsKeyed ((u, p) ∷ d) = (p.user_id ≡ u) × (lookup u d ≡ none) × IsKeyed d

-- The characters of a dictionary, given back to a stream, over those that are there already.
unfoldable pub restored : String → String → Dict String Player → Option Player → Option Player
restored stream_id u d other = elim (lookup u d) [
  | none ↦ other
  | some p ↦ some (reborn stream_id p)
]

lookup_members :
    (u : String) (o : Option (Dict String Player))
    → lookup u (elim o [ none ↦ [] | some d ↦ d ]) ≡ (o >>= λ d. lookup u d)
unfolding lookup
lookup_members u none = refl
lookup_members u (some d) = refl

-- The characters of a stream, also of one that has none.
pub get_player_lem :
    (stream_id u : String) (st : Storage)
    → lookup u (lookup_or stream_id [] st.players) ≡ get_player stream_id u st
unfolding get_player lookup_or
get_player_lem stream_id u st = lookup_members u (lookup stream_id st.players)

players_data-cons :
    (p : Player) (ps : List Player) (items : Items)
    → players_data (p ∷ ps) ≡ some items
    → (v : Value) × (vs : Items) × (items ≡ cons v vs)
      × (player_to_dict p ≡ some v)
      × (players_data ps ≡ some vs)
unfolding players_data
players_data-cons p ps items h = by_parts (player_to_dict p) (players_data ps) refl refl h
  where
    by_parts :
        (a : Option Value) (b : Option Items)
        → player_to_dict p ≡ a
        → players_data ps ≡ b
        → (a >>= λ v. b >>= λ vs. some (cons v vs)) ≡ some items
        → (v : Value) × (vs : Items) × (items ≡ cons v vs)
          × (player_to_dict p ≡ some v)
          × (players_data ps ≡ some vs)
    by_parts none b ea eb e = absurd (cc e)
    by_parts (some v) none ea eb e = absurd (cc e)
    by_parts (some v) (some vs) ea eb e = (v, vs, cc e, ea, eb)

pub get_player-put_player :
    (stream_id u : String) (p : Player) (st : Storage)
    → get_player stream_id u (put_player stream_id p st)
      ≡ (if p.user_id == u then some p else get_player stream_id u st)
get_player-put_player stream_id u p st =
    unfold put_player in
    unfold get_player in
    rw (lookup-insert, beq_refl stream_id, lookup-insert)
      (rw (← get_player_lem stream_id u st) refl)

module _ (stream_id : String) (now : ℕ) where
  restore_players-cons :
      (q : Player) (v : Value) (vs : Items) (st : Storage)
      → (PlayerCodec.retarget stream_id v >>= player_from_dict now) ≡ some q
      → restore_players stream_id now (cons v vs) st
        ≡ restore_players stream_id now vs (save_player q (put_player stream_id q st)).0
  unfolding restore_players
  restore_players-cons q v vs st h =
      ap
        (λ (o : Option Player). elim o [
          | none ↦ (st, false)
          | some player ↦
              restore_players stream_id now vs
                (save_player player (put_player stream_id player st)).0
        ])
        h

  pub get_player-save_player :
      (w : String) (q p : Player) (st : Storage)
      → get_player stream_id w (save_player q (put_player stream_id p st)).0
        ≡ (if p.user_id == w then some p else get_player stream_id w st)
  get_player-save_player w q p st =
      unfold save_player get_player in unfold get_player in get_player-put_player stream_id w p st

  restored-cons :
      (w u : String) (p : Player) (d : Dict String Player) (st : Storage)
      → p.user_id ≡ u
      → lookup u d ≡ none
      → restored stream_id w d (
          get_player stream_id w
            (save_player (reborn stream_id p) (put_player stream_id (reborn stream_id p) st)).0)
        ≡ restored stream_id w ((u, p) ∷ d) (get_player stream_id w st)
  unfolding restored lookup
  restored-cons w u p d st k new =
      rw get_player-save_player (ground (arith, k, new, eq_iff u w, eq_iff p.user_id w))

  -- The restored characters stand over those that are there already; nothing else in memory changes.
  pub restore_players_lem :
      (d : Dict String Player) (items : Items) (st : Storage)
      → IsKeyed d
      → players_data (values d) ≡ some items
      → let (t, ok) = restore_players stream_id now items st in
        (ok ≡ true)
        × ((u : String)
            → get_player stream_id u t ≡ restored stream_id u d (get_player stream_id u st))
        × (t.sessions ≡ st.sessions)
        × (t.config ≡ st.config)
  unfolding restored values
  restore_players_lem [] nil st k h = unfold restore_players lookup in (refl, λ u. refl, refl, refl)
  restore_players_lem [] (cons v vs) st k h = unfold players_data in cc
  restore_players_lem ((u, p) ∷ d) items st k h =
      let (v, vs, e, hv, hvs) = players_data-cons p (values d) items h in
      let st' : Storage =
        (save_player (reborn stream_id p) (put_player stream_id (reborn stream_id p) st)).0 in
      let (ok, here, same, config) = restore_players_lem d vs st' k.2 hvs in
      let next =
        restore_players-cons (reborn stream_id p) v vs st (retarget_written now stream_id p v hv) in
      rw (e, next)
        (
          ok,
          λ w. here w ∙ restored-cons w u p d st k.0 k.1,
          same ∙ unfold save_player put_player in refl,
          config ∙ unfold save_player put_player in refl,
        )
