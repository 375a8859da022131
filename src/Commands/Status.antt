-- ===== src/Commands/Status.antt =====
-- The life of a session under the commands of components/commands.py: what `_start`, `_end`, `_save`,
-- `_pause`, `_resume` and `_join` do to its status.
use mai_bot_trpg_plugin.Prelude.{
  ℕ, String, ◌≡◌, refl, sym, ◌∙◌, ap, Option, none, some, arith, string_eq, Option-cases, inl, inr,
  beq_refl,
}
use mai_bot_trpg_plugin.Prelude.Dict.{
  Dict, lookup, erase, lookup-erase_self, HasDistinctKeys, insert-HasDistinctKeys,
  erase-HasDistinctKeys,
}
use mai_bot_trpg_plugin.Session.Defs.{TrpgSession, new_session, trim_history}
use mai_bot_trpg_plugin.Storage.Defs.{
  Storage, Config, get_session, save_session, create_session, end_found, end_session, enable_group,
  save_members,
}
use mai_bot_trpg_plugin.Storage.RoundTrip.{
  get_session-save_session, enable_group_keeps, stream_id-trim,
}

-- The status of the session of a stream, where there is one.
unfoldable pub status_in : Option TrpgSession → Option String
status_in none = none
status_in (some s) = some s.status

abbrev pub status_of : String → Storage → Option String
status_of stream_id st = status_in (get_session stream_id st)

-- The session of the stream lies under its own id, and no id is there twice.
pub record IsFiled (stream_id : String) (st : Storage) : Type 0 where
  pub distinct : HasDistinctKeys st.sessions
  pub own : (s : TrpgSession) → get_session stream_id st ≡ some s → s.stream_id ≡ stream_id

-- The storage is in order, the session has this status, and the configuration is this one.
pub record Reaches (stream_id : String) (config : Config) (o : Option String) (st : Storage)
    : Type 0 where
  pub filed : IsFiled stream_id st
  pub status : status_of stream_id st ≡ o
  pub settings : st.config ≡ config

status-trim : (bound now : ℕ) (s : TrpgSession) → (trim_history bound now s).0.status ≡ s.status
unfolding trim_history
status-trim bound now s = ground arith

config-enable_group :
    (stream_id : String) (st : Storage) → (enable_group stream_id st).0.config ≡ st.config
unfolding enable_group
config-enable_group stream_id st = ground arith

module _ (stream_id : String) (config : Config) where
  pub save_session-Reaches :
      {o : Option String} (now : ℕ) (s : TrpgSession) (st : Storage)
      → s.stream_id ≡ stream_id
      → Reaches stream_id config o st
      → Reaches stream_id config (some s.status) (save_session now s st)
  save_session-Reaches now s st own h =
      let found : get_session stream_id (save_session now s st)
          ≡ some (trim_history st.config.max_history_length now s).0 =
        rw (get_session-save_session, own, beq_refl stream_id) in
      record {
        filed = record {
          distinct = unfold save_session in insert-HasDistinctKeys _ _ st.sessions h.filed.distinct;
          own = λ t e.
              let same : (trim_history st.config.max_history_length now s).0 ≡ t = cc (found, e) in
              ap (λ (r : TrpgSession). r.stream_id) (sym same)
              ∙ stream_id-trim st.config.max_history_length now s
              ∙ own;
        };
        status =
            ap status_in found
            ∙ unfold status_in in ap some (status-trim st.config.max_history_length now s);
        settings = unfold save_session in h.settings;
      }

  -- What leaves the sessions and the configuration alone leaves the status alone.
  pub same-Reaches :
      {o : Option String} (st t : Storage)
      → t.sessions ≡ st.sessions
      → t.config ≡ st.config
      → Reaches stream_id config o st
      → Reaches stream_id config o t
  same-Reaches st t e f h =
      let here : get_session stream_id t ≡ get_session stream_id st =
        unfold get_session in ap (λ (d : Dict String TrpgSession). lookup stream_id d) e in
      record {
        filed = record {
          distinct = rw e (h.filed.distinct);
          own = λ s found. h.filed.own s (sym here ∙ found);
        };
        status = ap status_in here ∙ h.status;
        settings = f ∙ h.settings;
      }

  erase-Reaches :
      {o : Option String} (st : Storage)
      → Reaches stream_id config o st
      → Reaches stream_id config none (record st { sessions = erase stream_id st.sessions })
  erase-Reaches st h =
      let gone : get_session stream_id (record st { sessions = erase stream_id st.sessions })
          ≡ none =
        unfold get_session in lookup-erase_self stream_id st.sessions h.filed.distinct in
      record {
        filed = record {
          distinct = erase-HasDistinctKeys stream_id st.sessions h.filed.distinct;
          own = λ s found. absurd (cc (gone, found));
        };
        status = ap status_in gone ∙ unfold status_in in refl;
        settings = h.settings;
      }

  pub end_session-Reaches :
      {o : Option String} (now : ℕ) (st : Storage)
      → Reaches stream_id config o st
      → Reaches stream_id config none (end_session stream_id now st).0
  unfolding end_session
  end_session-Reaches now st h = elim (Option-cases (get_session stream_id st)) [
    | inl e ↦ rw e (
        unfold end_found in
        record {
          filed = h.filed;
          status = ap status_in e ∙ unfold status_in in refl;
          settings = h.settings;
        })
    | inr (s, e) ↦
        let done = record s { status = "ended" } in
        rw e (
          unfold end_found in
          erase-Reaches (save_session now done st)
            (save_session-Reaches now done st (h.filed.own s e) h))
  ]

  pub create_session-Reaches :
      {o : Option String} (world_name : String) (now : ℕ) (st : Storage)
      → Reaches stream_id config o st
      → Reaches stream_id config (some "active") (create_session stream_id world_name now st).0
  unfolding create_session
  create_session-Reaches world_name now st h =
      let saved = save_session now (new_session stream_id world_name now) st in
      same-Reaches saved (enable_group stream_id saved).0 (enable_group_keeps stream_id saved).0
        (config-enable_group stream_id saved)
        (save_session-Reaches now (new_session stream_id world_name now) st refl h)

  pub save_members-Reaches :
      {o : Option String} (now : ℕ) (f : TrpgSession → TrpgSession) (st : Storage)
      → ((s : TrpgSession) → ((f s).stream_id ≡ s.stream_id) × ((f s).status ≡ s.status))
      → Reaches stream_id config o st
      → Reaches stream_id config o (save_members now f (get_session stream_id st) st)
  save_members-Reaches {o = o} now f st keeps h = elim (Option-cases (get_session stream_id st)) [
    | inl e ↦ rw e (unfold save_members in h)
    | inr (s, e) ↦
        let (own, status) = keeps s in
        let here : some (f s).status ≡ o =
          ap some status ∙ sym (ap status_in e ∙ unfold status_in in refl) ∙ h.status in
        rw e (
          unfold save_members in
          rw (← here) (save_session-Reaches now (f s) st (own ∙ h.filed.own s e) h))
  ]
