-- ===== src/Storage/Players.antt =====
-- The members of a session and the characters of its stream, in models/storage.py.
use mai_bot_trpg_plugin.Prelude.{
  ℕ, String, ◌≡◌, refl, ◌≢◌, ◌∙◌, ap, true, false, Option, none, some, List, [], ◌∷◌, ◌++◌, arith,
  string_eq, ◌==◌, if◌then◌else◌, Option-cases, inl, inr, beq_refl, contains, IsDistinct,
  contains-append, contains-remove_self, is_some,
}
use mai_bot_trpg_plugin.Prelude.Int.{ℤ}
use mai_bot_trpg_plugin.Prelude.Dict.{
  lookup, lookup_or, insert, erase, lookup-insert, lookup-erase_ne, lookup-erase_self,
  HasDistinctKeys,
}
use mai_bot_trpg_plugin.Session.Defs.{
  TrpgSession, new_session, add_player, remove_player, trim_history,
}
use mai_bot_trpg_plugin.Storage.Files.{player_file, path_eq}
use mai_bot_trpg_plugin.Storage.Defs.{
  Storage, get_session, save_session, create_session, end_found, end_session, get_player,
  put_player, save_player, save_members, new_player, create_player, delete_player, drop_player,
}
use mai_bot_trpg_plugin.Storage.Slots.{get_player_lem, get_player-save_player}
use mai_bot_trpg_plugin.Storage.RoundTrip.{
  get_session-save_session, get_session-sessions, get_player-players, enable_group_keeps,
}

player_ids-trim :
    (bound now : ℕ) (s : TrpgSession) → (trim_history bound now s).0.player_ids ≡ s.player_ids
unfolding trim_history
player_ids-trim bound now s = ground arith

contains_last : (u : String) (us : List String) → contains u (us ++ u ∷ []) ≡ true
unfolding contains
contains_last u us = ground (arith, contains-append u us (u ∷ []), beq_refl u)

contains-add_player :
    (u : String) (now : ℕ) (s : TrpgSession) → contains u (add_player u now s).player_ids ≡ true
unfolding add_player
contains-add_player u now s = ground (arith, contains_last u s.player_ids)

contains-remove_player :
    (u : String) (now : ℕ) (s : TrpgSession)
    → IsDistinct s.player_ids
    → contains u (remove_player u now s).player_ids ≡ false
unfolding remove_player
contains-remove_player u now s h = ground (arith, contains-remove_self u s.player_ids h)

stream_id-add_player :
    (u : String) (now : ℕ) (s : TrpgSession) → (add_player u now s).stream_id ≡ s.stream_id
unfolding add_player
stream_id-add_player u now s = ground arith

stream_id-remove_player :
    (u : String) (now : ℕ) (s : TrpgSession) → (remove_player u now s).stream_id ≡ s.stream_id
unfolding remove_player
stream_id-remove_player u now s = ground arith

-- The player ids of a session, and none where there is no session.
unfoldable pub members_of : Option TrpgSession → List String
members_of none = []
members_of (some s) = s.player_ids

abbrev pub members : String → Storage → List String
members stream_id st = members_of (get_session stream_id st)

-- `save_session` touches no character.
players-save_session :
    (now : ℕ) (s : TrpgSession) (st : Storage) → (save_session now s st).players ≡ st.players
unfolding save_session
players-save_session now s st = refl

-- What saving the members does: no character changes, and a session that lies under its own id has
-- the members that the update gives.
pub players-save_members :
    (now : ℕ) (f : TrpgSession → TrpgSession) (o : Option TrpgSession) (st : Storage)
    → (save_members now f o st).players ≡ st.players
unfolding save_members
players-save_members now f none st = refl
players-save_members now f (some s) st = players-save_session now (f s) st

members-save_members :
    (now : ℕ) (f : TrpgSession → TrpgSession) (stream_id : String) (s : TrpgSession) (st : Storage)
    → (f s).stream_id ≡ stream_id
    → members stream_id (save_members now f (some s) st) ≡ (f s).player_ids
unfolding save_members
members-save_members now f stream_id s st own =
    let found : get_session stream_id (save_session now (f s) st)
        ≡ some (trim_history st.config.max_history_length now (f s)).0 =
      rw (get_session-save_session, own, beq_refl stream_id) in
    ap members_of found
    ∙ unfold members_of in player_ids-trim st.config.max_history_length now (f s)

-- A character that is created is found under its user, whatever was there before, and every other
-- character of the stream is as it was. Where the stream has a session that lies under its own
-- stream id, the user is a member of it afterwards.
pub create_player_joins :
    (stream_id u name : String) (free : Option ℤ) (now : ℕ) (st : Storage)
    → let (t, player) = create_player stream_id u name free now st in
      ((w : String)
        → get_player stream_id w t ≡ (if u == w then some player else get_player stream_id w st))
      × ((s : TrpgSession)
          → get_session stream_id st ≡ some s
          → s.stream_id ≡ stream_id
          → contains u (members stream_id t) ≡ true)
unfolding create_player
create_player_joins stream_id u name free now st =
    let player = new_player stream_id u name free now st.config in
    let saved : Storage = (save_player player (put_player stream_id player st)).0 in
    let same : get_session stream_id saved ≡ get_session stream_id st =
      get_session-sessions stream_id saved st (unfold save_player put_player in refl) in
    (
      λ w.
          get_player-players stream_id w _ saved
            (players-save_members now (add_player u now) (get_session stream_id saved) saved)
          ∙ get_player-save_player stream_id now w player player st,
      λ s found own.
          let now_in : members stream_id
                (save_members now (add_player u now) (get_session stream_id saved) saved)
              ≡ (add_player u now s).player_ids =
            ap (λ o. members stream_id (save_members now (add_player u now) o saved)) (same ∙ found)
            ∙ members-save_members now (add_player u now) stream_id s saved
                (stream_id-add_player u now s ∙ own) in
          ap (contains u) now_in ∙ contains-add_player u now s,
    )

module _ (stream_id u : String) (now : ℕ) (st : Storage) where
  -- The storage without the character, before the members are written.
  abbrev dropped : Storage
  dropped = record st {
    players = insert stream_id (erase u (lookup_or stream_id [] st.players)) st.players;
    files = erase (player_file stream_id u) st.files;
  }

  get_player-drop_player :
      (w : String)
      → get_player stream_id w (drop_player stream_id u now st)
        ≡ lookup w (erase u (lookup_or stream_id [] st.players))
  unfolding drop_player
  get_player-drop_player w =
      get_player-players stream_id w _ dropped
        (players-save_members now (remove_player u now) (get_session stream_id dropped) dropped)
      ∙ unfold get_player in rw (lookup-insert, beq_refl stream_id)

  members-drop_player :
      (s : TrpgSession)
      → get_session stream_id st ≡ some s
      → s.stream_id ≡ stream_id
      → IsDistinct s.player_ids
      → contains u (members stream_id (drop_player stream_id u now st)) ≡ false
  unfolding drop_player
  members-drop_player s found own distinct =
      let here : get_session stream_id dropped ≡ get_session stream_id st =
        get_session-sessions stream_id dropped st refl in
      let now_in : members stream_id
            (save_members now (remove_player u now) (get_session stream_id dropped) dropped)
          ≡ (remove_player u now s).player_ids =
        ap (λ o. members stream_id (save_members now (remove_player u now) o dropped))
          (here ∙ found)
        ∙ members-save_members now (remove_player u now) stream_id s dropped
            (stream_id-remove_player u now s ∙ own) in
      ap (contains u) now_in ∙ contains-remove_player u now s distinct

-- Where no user has two entries, a character of a stream that is deleted is gone, the other characters of the stream stay, and
-- where the stream has a session that lies under its own id and lists no one twice, the user is no
-- member of it afterwards. No character means no change.
pub delete_player_leaves :
    (stream_id u : String) (now : ℕ) (st : Storage)
    → HasDistinctKeys (lookup_or stream_id [] st.players)
    → let (t, done) = delete_player stream_id u now st in
      (done ≡ is_some (get_player stream_id u st))
      × (done ≡ false → t ≡ st)
      × (get_player stream_id u t ≡ none)
      × ((w : String) → u ≢ w → get_player stream_id w t ≡ get_player stream_id w st)
      × ((s : TrpgSession)
          → done ≡ true
          → get_session stream_id st ≡ some s
          → s.stream_id ≡ stream_id
          → IsDistinct s.player_ids
          → contains u (members stream_id t) ≡ false)
delete_player_leaves stream_id u now st h = elim (Option-cases (get_player stream_id u st)) [
  | inl e ↦
      let run : delete_player stream_id u now st ≡ (st, false) = unfold delete_player in rw e in
      rw (run, e) (refl, λ _. refl, refl, λ w _. refl, λ s no. absurd (cc no))
  | inr (p, e) ↦
      let run : delete_player stream_id u now st ≡ (drop_player stream_id u now st, true) =
        unfold delete_player in rw e in
      let ps = lookup_or stream_id [] st.players in
      rw (run, e)
        (
          refl,
          λ no. absurd (cc no),
          get_player-drop_player stream_id u now st u ∙ lookup-erase_self u ps h,
          λ w ne.
              get_player-drop_player stream_id u now st w
              ∙ lookup-erase_ne u w ps ne
              ∙ get_player_lem stream_id w st,
          λ s _ found own. members-drop_player stream_id u now st s found own,
        )
]

players-end_found :
    (stream_id : String) (now : ℕ) (o : Option TrpgSession) (st : Storage)
    → (end_found stream_id now o st).0.players ≡ st.players
unfolding end_found
players-end_found stream_id now none st = refl
players-end_found stream_id now (some s) st =
    players-save_session now (record s { status = "ended" }) st

players-end_session :
    (stream_id : String) (now : ℕ) (st : Storage)
    → (end_session stream_id now st).0.players ≡ st.players
unfolding end_session
players-end_session stream_id now st = players-end_found stream_id now (get_session stream_id st) st

-- Ending the session of a stream and starting the next one keeps every character of the stream, and
-- the new session lists no member.
pub create_session-end_session :
    (stream_id world_name : String) (now later : ℕ) (st : Storage)
    → let t = (create_session stream_id world_name later (end_session stream_id now st).0).0 in
      ((w : String) → get_player stream_id w t ≡ get_player stream_id w st)
      × (members stream_id t ≡ [])
unfolding create_session
create_session-end_session stream_id world_name now later st =
    let ended : Storage = (end_session stream_id now st).0 in
    let fresh : TrpgSession = new_session stream_id world_name later in
    let saved : Storage = save_session later fresh ended in
    let (sessions, players) = enable_group_keeps stream_id saved in
    let found : get_session stream_id saved
        ≡ some (trim_history ended.config.max_history_length later fresh).0 =
      rw (get_session-save_session, beq_refl stream_id) in
    (
      λ w.
          get_player-players stream_id w _ st (
            players
            ∙ players-save_session later fresh ended
            ∙ players-end_session stream_id now st),
      ap members_of (get_session-sessions stream_id _ saved sessions ∙ found)
          ∙ unfold members_of in
            player_ids-trim ended.config.max_history_length later fresh
            ∙ unfold new_session in refl,
    )
