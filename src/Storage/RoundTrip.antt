-- ===== src/Storage/RoundTrip.antt =====
-- What is saved to a slot is what a load gives back.
use mai_bot_trpg_plugin.Prelude.{
  ℕ, String, ◌≡◌, refl, ◌∙◌, ap, true, false, not, ◌||◌, Option, none, some, [], arith, string_eq,
  ◌==◌, if◌then◌else◌, Option-cases, inl, inr, beq_refl, ltb,
}
use mai_bot_trpg_plugin.Prelude.Dict.{Dict, lookup, lookup_or, insert, values, lookup-insert}
use mai_bot_trpg_plugin.Json.{
  Value, Items, nil, Fields, obj, arr, text, member, end, ◌>>=◌, as_arr, get, field_or, as_any,
}
use mai_bot_trpg_plugin.Player.Defs.{Player}
use mai_bot_trpg_plugin.Session.Defs.{TrpgSession, trim_history}
use mai_bot_trpg_plugin.Session.Codec.{session_to_dict, session_from_dict-retarget}
use mai_bot_trpg_plugin.Storage.Files.{FilePath, path_eq}
use mai_bot_trpg_plugin.Storage.Defs.{
  Storage, Config, write_file, enable_group, get_session, has_active_session, save_session,
  get_player,
}
use mai_bot_trpg_plugin.Storage.SlotDefs.{
  saved, loaded, slot_path, is_slot, players_data, save_value, save_to_slot, restore_players,
  load_items, load_players, load_session, saved_session, load_save, load_from_slot,
}
use mai_bot_trpg_plugin.Storage.Slots.{IsKeyed, restored, restore_players_lem}

pub enable_group_keeps :
    (stream_id : String) (st : Storage)
    → ((enable_group stream_id st).0.sessions ≡ st.sessions)
      × ((enable_group stream_id st).0.players ≡ st.players)
unfolding enable_group
enable_group_keeps stream_id st = (ground arith, ground arith)

pub stream_id-trim :
    (bound now : ℕ) (s : TrpgSession) → (trim_history bound now s).0.stream_id ≡ s.stream_id
unfolding trim_history
stream_id-trim bound now s = ground arith

-- A saved session lies, trimmed, under its stream.
pub get_session-save_session :
    (now : ℕ) (s : TrpgSession) (st : Storage) (stream_id : String)
    → get_session stream_id (save_session now s st) ≡ (
        if s.stream_id == stream_id
        then some (trim_history st.config.max_history_length now s).0
        else get_session stream_id st)
unfolding get_session save_session
get_session-save_session now s st stream_id =
    rw (lookup-insert, stream_id-trim st.config.max_history_length now s)

pub get_player-players :
    (stream_id w : String) (st t : Storage)
    → st.players ≡ t.players
    → get_player stream_id w st ≡ get_player stream_id w t
unfolding get_player
get_player-players stream_id w st t e =
    ap (λ (ps : Dict String (Dict String Player)). lookup stream_id ps >>= λ d. lookup w d) e

module _ (stream_id : String) (now : ℕ) where
  get_player_cleared :
      (w : String) (st : Storage)
      → get_player stream_id w (record st { players = insert stream_id [] st.players }) ≡ none
  unfolding get_player
  get_player_cleared w st = rw (lookup-insert, beq_refl stream_id) (unfold lookup in refl)

  load_items_lem :
      (d : Dict String Player) (items : Items) (st : Storage)
      → (restore_players stream_id now items st).1 ≡ true
      → ((w : String)
          → get_player stream_id w (restore_players stream_id now items st).0
            ≡ restored stream_id w d none)
      → (restore_players stream_id now items st).0.sessions ≡ st.sessions
      → let (t, reply) = load_items stream_id now (some items) st in
        (reply ≡ loaded)
        × ((w : String) → get_player stream_id w t ≡ restored stream_id w d none)
        × (t.sessions ≡ st.sessions)
  unfolding load_items
  load_items_lem d items st ok back same =
      let kept = enable_group_keeps stream_id (restore_players stream_id now items st).0 in
      rw ok (refl, λ w. get_player-players stream_id w _ _ kept.1 ∙ back w, kept.0 ∙ same)

  load_players_lem :
      (d : Dict String Player) (items : Items) (st : Storage)
      → IsKeyed d
      → players_data (values d) ≡ some items
      → (fs : Fields) → (field_or as_any "players" (arr nil) fs >>= as_arr) ≡ some items
      → let (t, reply) = load_players stream_id now fs st in
        (reply ≡ loaded)
        × ((w : String) → get_player stream_id w t ≡ restored stream_id w d none)
        × (t.sessions ≡ st.sessions)
  load_players_lem d items st k h fs e =
      let cleared : Storage = record st { players = insert stream_id [] st.players } in
      let (ok, back, same, _) = restore_players_lem stream_id now d items cleared k h in
      let branch : load_players stream_id now fs st
          ≡ load_items stream_id now (some items) cleared =
        unfold load_players in ap (λ o. load_items stream_id now o cleared) e in
      rw branch (
        load_items_lem d items cleared ok
          (λ w. back w ∙ ap (restored stream_id w d) (get_player_cleared w st)) same)

-- Whether a save went through, and what it wrote.
save_to_slot_saved :
    (stream_id stamp : String) (slot : ℕ) (st : Storage) (session : TrpgSession)
    → get_session stream_id st ≡ some session
    → (save_to_slot stream_id slot stamp st).1 ≡ saved
    → (items : Items) × (is_slot slot st ≡ true)
      × (players_data (values (lookup_or stream_id [] st.players)) ≡ some items)
      × ((save_to_slot stream_id slot stamp st).0
          ≡ write_file (slot_path stream_id slot) (some (save_value stamp session items)) st)
unfolding save_to_slot
save_to_slot_saved stream_id stamp slot st session found ok =
    elim (Option-cases (players_data (values (lookup_or stream_id [] st.players)))) [
      | inl e ↦ absurd (ground arith)
      | inr (items, e) ↦ (items, ground arith, e, ground arith)
    ]

-- The object that `save_value` writes.
abbrev save_fields : String → TrpgSession → Items → Fields
save_fields stamp session items =
    member "saved_at" (text stamp)
      (member "session" (obj (session_to_dict session)) (member "players" (arr items) end))

abbrev revived : String → TrpgSession → TrpgSession
revived stream_id session = record session { stream_id = stream_id; status = "active" }

saved_session-save_fields :
    (stream_id stamp : String) (now : ℕ) (session : TrpgSession) (items : Items)
    → saved_session stream_id now (save_fields stamp session items)
      ≡ some (revived stream_id session)
unfolding saved_session
saved_session-save_fields stream_id stamp now session items =
    session_from_dict-retarget now stream_id session

players-save_fields :
    (stamp : String) (session : TrpgSession) (items : Items)
    → (field_or as_any "players" (arr nil) (save_fields stamp session items) >>= as_arr)
      ≡ some items
unfolding field_or get
players-save_fields stamp session items = refl

load_save-save_value :
    (stream_id stamp : String) (now : ℕ) (session : TrpgSession) (items : Items) (t : Storage)
    → load_save stream_id now (some (save_value stamp session items)) t
      ≡ load_players stream_id now
          (save_fields stamp session items)
          (save_session now (revived stream_id session) t)
unfolding load_save save_value load_session
load_save-save_value stream_id stamp now session items t =
    ap (λ o. load_session stream_id now (save_fields stamp session items) o t)
      (saved_session-save_fields stream_id stamp now session items)

load_from_slot_lem :
    (stream_id : String) (slot now : ℕ) (t : Storage) (content : Option Value)
    → is_slot slot t ≡ true
    → has_active_session stream_id t ≡ false
    → lookup (slot_path stream_id slot) t.files ≡ some content
    → load_from_slot stream_id slot now t ≡ load_save stream_id now content t
unfolding load_from_slot
load_from_slot_lem stream_id slot now t content in_range idle file = ground arith

lookup-write_file :
    (path : FilePath) (content : Option Value) (st : Storage)
    → lookup path (write_file path content st).files ≡ some content
unfolding write_file
lookup-write_file path content st = rw (lookup-insert, beq_refl path)

pub get_session-sessions :
    (stream_id : String) (st t : Storage)
    → st.sessions ≡ t.sessions
    → get_session stream_id st ≡ get_session stream_id t
unfolding get_session
get_session-sessions stream_id st t e = ap (λ (d : Dict String TrpgSession). lookup stream_id d) e

module _ (stream_id : String) (slot now : ℕ) (stamp : String) (st t : Storage)
    (session : TrpgSession) where
  -- What was saved to a slot is what a load from it gives back later: where the slot's file is still
  -- the one written, the configuration is the same, no session is active, and the saved characters lay
  -- under their own user ids, the load succeeds, whatever else has changed. The session is
  -- the saved one, active and under this stream, trimmed as every save trims it; the characters are
  -- the saved ones under this stream, and no others.
  pub load_from_slot-save_to_slot :
      get_session stream_id st ≡ some session
      → IsKeyed (lookup_or stream_id [] st.players)
      → (save_to_slot stream_id slot stamp st).1 ≡ saved
      → t.config ≡ st.config
      → lookup (slot_path stream_id slot) t.files
        ≡ lookup (slot_path stream_id slot) (save_to_slot stream_id slot stamp st).0.files
      → has_active_session stream_id t ≡ false
      → let (u, reply) = load_from_slot stream_id slot now t in
        (reply ≡ loaded)
        × (get_session stream_id u
            ≡ some (trim_history st.config.max_history_length now (revived stream_id session)).0)
        × ((w : String)
            → get_player stream_id w u
              ≡ restored stream_id w (lookup_or stream_id [] st.players) none)
  load_from_slot-save_to_slot found keyed ok config file idle =
      let (items, in_range, h, wrote) =
        save_to_slot_saved stream_id stamp slot st session found ok in
      let written =
        ap (λ (u : Storage). lookup (slot_path stream_id slot) u.files) wrote
        ∙ lookup-write_file (slot_path stream_id slot) (some (save_value stamp session items)) st in
      let room = ap (λ (c : Config). not (ltb slot 1 || ltb c.max_slots slot)) config ∙ in_range in
      let run =
        load_from_slot_lem stream_id slot now t _ room idle (file ∙ written)
        ∙ load_save-save_value stream_id stamp now session items t in
      let live : Storage = save_session now (revived stream_id session) t in
      let (done, who, same) =
        load_players_lem stream_id now (lookup_or stream_id [] st.players) items live keyed h
          (save_fields stamp session items) (players-save_fields stamp session items) in
      rw run (
        done,
        get_session-sessions stream_id _ live same
            ∙ rw (get_session-save_session, beq_refl stream_id, config),
        who,
      )
