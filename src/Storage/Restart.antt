-- ===== src/Storage/Restart.antt =====
-- What is there after the plugin is started again, in models/storage.py.
use mai_bot_trpg_plugin.Prelude.{
  ℕ, String, ◌≡◌, refl, sym, ◌∙◌, ap, Option, none, some, [], ◌∷◌, arith, string_eq, ◌==◌, eq_iff,
  if◌then◌else◌, Bool-cases, inl, inr, if_keeps, beq_refl,
}
use mai_bot_trpg_plugin.Prelude.Dict.{
  Dict, lookup, lookup-insert, HasDistinctKeys, insert-HasDistinctKeys,
}
use mai_bot_trpg_plugin.Json.{Value, obj, ◌>>=◌}
use mai_bot_trpg_plugin.Session.Defs.{TrpgSession, trim_history}
use mai_bot_trpg_plugin.Session.Codec.{session_to_dict, session_from_dict-to_dict}
use mai_bot_trpg_plugin.Storage.Files.{
  FilePath, enabled_groups, session_file, player_file, slot_file, path_eq, path_beq, path_beq_iff,
  Files,
}
use mai_bot_trpg_plugin.Storage.Defs.{Storage, get_session, save_session, new_storage}
use mai_bot_trpg_plugin.Storage.RoundTrip.{stream_id-trim}
use mai_bot_trpg_plugin.Storage.Start.{
  unless_ended, read_session, keep_session, load_all_sessions, initialize, restart,
}

-- Each file of a session holds a session of its own stream.
abbrev pub HoldsOwn : ℕ → Files → Type 0
HoldsOwn now files =
    (stream_id : String) (content : Option Value) (s : TrpgSession)
    → lookup (session_file stream_id) files ≡ some content
    → read_session now content ≡ some s
    → s.stream_id ≡ stream_id

-- The session that the file of a stream holds.
abbrev pub session_in : ℕ → String → Files → Option TrpgSession
session_in now stream_id files =
    lookup (session_file stream_id) files >>= λ content. read_session now content

abbrev or_before : Option TrpgSession → Option TrpgSession → Option TrpgSession
or_before none before = before
or_before (some s) before = some s

lookup-keep_session :
    (stream_id id : String) (o : Option TrpgSession) (d : Dict String TrpgSession)
    → ((s : TrpgSession) → o ≡ some s → s.stream_id ≡ stream_id)
    → lookup id (keep_session o d)
      ≡ (if stream_id == id then or_before o (lookup id d) else lookup id d)
unfolding keep_session
lookup-keep_session stream_id id none d own =
    if_keeps (λ r. lookup id d ≡ r) (stream_id == id) (λ _. refl) (λ _. refl)
lookup-keep_session stream_id id (some s) d own =
    lookup-insert s.stream_id id s d
    ∙ ap (λ k. if k == id then some s else lookup id d) (own s refl)

-- The files behind the first.
tail_lookup :
    (p k : FilePath) (content c : Option Value) (files : Files)
    → lookup p files ≡ none
    → lookup k files ≡ some c
    → lookup k ((p, content) ∷ files) ≡ some c
unfolding lookup
tail_lookup p k content c files gone e = elim (Bool-cases (p == k)) [
  | inl here ↦
      let same : p ≡ k = (path_beq_iff p k).0 here in
      absurd (cc (sym gone ∙ ap (λ x. lookup x files) same ∙ e))
  | inr other ↦ rw other e
]

tail-HoldsOwn :
    (now : ℕ) (p : FilePath) (content : Option Value) (files : Files)
    → lookup p files ≡ none
    → HoldsOwn now ((p, content) ∷ files)
    → HoldsOwn now files
tail-HoldsOwn now p content files gone own id c s e read =
    own id c s (tail_lookup p (session_file id) content c files gone e) read

first_lookup :
    (p : FilePath) (content : Option Value) (files : Files)
    → lookup p ((p, content) ∷ files) ≡ some content
unfolding lookup
first_lookup p content files = rw (beq_refl p)

lookup-load_all_sessions :
    (now : ℕ) (files : Files) (d : Dict String TrpgSession) (stream_id : String)
    → HasDistinctKeys files
    → HoldsOwn now files
    → lookup stream_id (load_all_sessions now files d)
      ≡ or_before (session_in now stream_id files) (lookup stream_id d)
unfolding load_all_sessions lookup path_beq
lookup-load_all_sessions now [] d id h own = refl
lookup-load_all_sessions now ((session_file stream_id, content) ∷ files) d id h own =
    let o = read_session now content in
    let own_id = λ (s : TrpgSession) (e : o ≡ some s).
      own stream_id content s (first_lookup (session_file stream_id) content files) e in
    let later =
      lookup-load_all_sessions now files (keep_session o d) id h.1
        (tail-HoldsOwn now (session_file stream_id) content files h.0 own) in
    let kept = lookup-keep_session stream_id id o d own_id in
    later ∙ elim (Bool-cases (stream_id == id)) [
      | inl here ↦
          let same : stream_id ≡ id = ground (arith, eq_iff stream_id id) in
          let gone : lookup (session_file id) files ≡ none =
            ap (λ x. lookup (session_file x) files) (sym same) ∙ h.0 in
          rw (gone, kept, here)
      | inr other ↦ rw (kept, other)
    ]
lookup-load_all_sessions now ((enabled_groups, content) ∷ files) d id h own =
    lookup-load_all_sessions now files d id h.1
      (tail-HoldsOwn now enabled_groups content files h.0 own)
lookup-load_all_sessions now ((player_file stream_id user_id, content) ∷ files) d id h own =
    lookup-load_all_sessions now files d id h.1
      (tail-HoldsOwn now (player_file stream_id user_id) content files h.0 own)
lookup-load_all_sessions now ((slot_file safe_id slot, content) ∷ files) d id h own =
    lookup-load_all_sessions now files d id h.1
      (tail-HoldsOwn now (slot_file safe_id slot) content files h.0 own)

module _ (now : ℕ) (st : Storage) (h : HasDistinctKeys st.files) (own : HoldsOwn now st.files) where
  -- After a start, the session of a stream is that of its file, unless it has ended.
  get_session-restart : (id : String) → get_session id (restart now st) ≡ session_in now id st.files
  unfolding get_session initialize new_storage
  get_session-restart id =
      lookup-load_all_sessions now st.files [] id h own
      ∙ unfold lookup in or_nothing (session_in now id st.files)
    where
      or_nothing : (o : Option TrpgSession) → or_before o none ≡ o
      or_nothing none = refl
      or_nothing (some s) = refl

module _ (now time : ℕ) (s : TrpgSession) (st : Storage) where
  -- The session as it is written.
  abbrev pub written : TrpgSession
  written = (trim_history st.config.max_history_length time s).0

  read-written :
      read_session now (some (obj (session_to_dict written))) ≡ unless_ended (some written)
  unfolding read_session
  read-written = rw (session_from_dict-to_dict now written)

  lookup-files :
      (id : String)
      → lookup (session_file id) (save_session time s st).files ≡ (
          if s.stream_id == id
          then some (some (obj (session_to_dict written)))
          else lookup (session_file id) st.files)
  unfolding save_session
  lookup-files id =
      lookup-insert (session_file written.stream_id) (session_file id) _ st.files
      ∙ unfold path_beq in rw (stream_id-trim st.config.max_history_length time s)

  unless_ended-stream_id :
      (t : TrpgSession) → unless_ended (some written) ≡ some t → t.stream_id ≡ s.stream_id
  unfolding unless_ended
  unless_ended-stream_id t e =
      let same : written ≡ t = ground arith in
      ap (λ (x : TrpgSession). x.stream_id) (sym same)
      ∙ stream_id-trim st.config.max_history_length time s

  save_session-HoldsOwn : HoldsOwn now st.files → HoldsOwn now (save_session time s st).files
  save_session-HoldsOwn own id content t e read = elim (Bool-cases (s.stream_id == id)) [
    | inl here ↦
        let same : s.stream_id ≡ id = ground (arith, eq_iff s.stream_id id) in
        let c : some (obj (session_to_dict written)) ≡ content =
          cc (sym (rw here at (lookup-files id)) ∙ e) in
        unless_ended-stream_id t (sym read-written ∙ ap (read_session now) c ∙ read) ∙ same
    | inr other ↦ own id content t (sym (rw other at (lookup-files id)) ∙ e) read
  ]

  save_session-HasDistinctKeys :
      HasDistinctKeys st.files → HasDistinctKeys (save_session time s st).files
  unfolding save_session
  save_session-HasDistinctKeys h =
      insert-HasDistinctKeys (session_file written.stream_id) _ st.files h

  session_in-written :
      (id : String)
      → session_in now id (save_session time s st).files
        ≡ (if s.stream_id == id then unless_ended (some written) else session_in now id st.files)
  session_in-written id =
      ap (λ (o : Option (Option Value)). o >>= λ content. read_session now content)
        (lookup-files id)
      ∙ elim (Bool-cases (s.stream_id == id)) [
        | inl here ↦ rw here read-written
        | inr other ↦ rw other
      ]

-- Where no file is listed twice and each session lies in the file of its own stream, a session that is saved
-- is there again, cut as it was saved, when the plugin is stopped and started, unless it has ended, and every
-- other stream has the session that it would have had. The files stay of that kind.
pub restart-save_session :
    (now time : ℕ) (s : TrpgSession) (st : Storage)
    → HasDistinctKeys st.files
    → HoldsOwn now st.files
    → let t = save_session time s st in
      ((id : String)
        → get_session id (restart now t) ≡ (
            if s.stream_id == id
            then unless_ended (some (trim_history st.config.max_history_length time s).0)
            else get_session id (restart now st)))
      × HasDistinctKeys t.files
      × HoldsOwn now t.files
restart-save_session now time s st h own =
    let distinct = save_session-HasDistinctKeys now time s st h in
    let holds = save_session-HoldsOwn now time s st own in
    (
      λ id.
          get_session-restart now (save_session time s st) distinct holds id
          ∙ session_in-written now time s st id
          ∙ rw (get_session-restart now st h own id),
      distinct,
      holds,
    )
