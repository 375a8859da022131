-- ===== src/Commands/Joining.antt =====
-- Who may join a session, by `_join` and `_confirm` of components/commands.py.
use mathlib.Core.Path.{subst}
use mai_bot_trpg_plugin.Prelude.{
  ℕ, String, ◌≡◌, ◌≢◌, refl, ◌∙◌, ap, Bool, true, false, not, ◌&&◌, ◌||◌, Option, none, some, List,
  [], ◌∷◌, arith, ◌==◌, string_eq, if◌then◌else◌, Bool-cases, Option-cases, inl, inr, if_keeps,
  beq_refl, beq_ne,
}
use mai_bot_trpg_plugin.Prelude.Chars.{lower}
use mai_bot_trpg_plugin.Json.{◌>>=◌}
use mai_bot_trpg_plugin.Prelude.Dict.{
  Dict, lookup, lookup_or, lookup-insert, lookup-erase_self, HasDistinctKeys,
}
use mai_bot_trpg_plugin.Session.Defs.{TrpgSession, is_active, add_player}
use mai_bot_trpg_plugin.Storage.Defs.{
  Storage, get_session, get_player, new_player, create_player, add_pending_join, get_pending_join,
  pop_join, remove_pending_join, get_all_pending_joins, save_members, save_session, save_player,
  put_player,
}
use mai_bot_trpg_plugin.Storage.RoundTrip.{get_player-players}
use mai_bot_trpg_plugin.Storage.Players.{create_player_joins, players-save_members}
use mai_bot_trpg_plugin.Commands.Defs.{Caller, Settings, Reply, is_admin}
use mai_bot_trpg_plugin.Commands.Join.{
  enter, joined_entry, confirmed_entry, is_pending, has_members, join, join_with, join_active,
  confirm, confirm_request,
}

-- The characters of the stream when a user has entered.
get_player-enter :
    (c : Caller) (u name : String) (note : TrpgSession → TrpgSession) (st : Storage) (w : String)
    → get_player c.stream_id w (enter c u name note st) ≡ (
        if u == w
        then some (new_player c.stream_id u name none c.now st.config)
        else get_player c.stream_id w st)
get_player-enter c u name note st w =
    let created : Storage = (create_player c.stream_id u name none c.now st).0 in
    let (made, _) = create_player_joins c.stream_id u name none c.now st in
    unfold enter in
    get_player-players c.stream_id w _ created
      (players-save_members c.now note (get_session c.stream_id created) created)
    ∙ made w
    ∙ unfold create_player in refl

-- Whether the settings let a user in at once.
abbrev pub may_enter : Caller → Settings → TrpgSession → Bool
may_enter c settings s =
    (settings.allow_mid_join || not (has_members s))
    && (not settings.mid_join_require_confirm || is_admin c.user_id settings)

join_active-may_enter :
    (c : Caller) (settings : Settings) (name : String) (st : Storage) (s : TrpgSession) (w : String)
    → get_player c.stream_id w (join_active c settings name s false st).0 ≡ (
        if may_enter c settings s && c.user_id == w
        then some (new_player c.stream_id c.user_id name none c.now st.config)
        else get_player c.stream_id w st)
join_active-may_enter c settings name st s w =
    let into = get_player-enter c c.user_id name (joined_entry c name) st w in
    let waits = add_pending_join c.stream_id c.user_id name st in
    let asked : get_player c.stream_id w waits ≡ get_player c.stream_id w st =
      get_player-players c.stream_id w waits st (unfold add_pending_join in refl) in
    let pending = is_pending (get_pending_join c.stream_id c.user_id st) in
    unfold join_active in
    elim (Bool-cases settings.allow_mid_join) [
      | inl open_ ↦ ground (arith, into, asked)
      | inr shut ↦ ground (arith, into, asked)
    ]

-- A user without a character who joins an active session has one afterwards exactly when joining in
-- the middle is allowed or nobody has joined yet, and no confirmation is required or the user is an
-- administrator. The character is new and has the name that was given, or the default; no other
-- character of the stream changes.
pub join_permitted :
    (c : Caller) (settings : Settings) (args : String) (st : Storage) (s : TrpgSession)
    → get_session c.stream_id st ≡ some s
    → is_active s ≡ true
    → get_player c.stream_id c.user_id st ≡ none
    → (w : String)
    → get_player c.stream_id w (join c settings args st).0 ≡ (
        if may_enter c settings s && c.user_id == w
        then some (
            new_player c.stream_id c.user_id
              (if args == "" then "无名冒险者" else args)
              none
              c.now
              st.config)
        else get_player c.stream_id w st)
unfolding join
join_permitted c settings args st s found active new w = rw found (
    unfold join_with in
    rw (active, new)
      (join_active-may_enter c settings (if args == "" then "无名冒险者" else args) st s w))

abbrev default_joins : Option (Dict String String) → Dict String String
default_joins o = elim o [ none ↦ [] | some w ↦ w ]

-- Taking a request out: what it was, that it is gone, and that nothing but the requests changes.
remove_pending_join_lem :
    (stream_id u : String) (st : Storage) (name : String)
    → get_pending_join stream_id u st ≡ some name
    → HasDistinctKeys (get_all_pending_joins stream_id st)
    → let (t, request) = remove_pending_join stream_id u st in
      (request ≡ some name)
      × (t.players ≡ st.players)
      × (t.config ≡ st.config)
      × (get_pending_join stream_id u t ≡ none)
unfolding remove_pending_join get_pending_join get_all_pending_joins lookup_or
remove_pending_join_lem stream_id u st name asked h =
    elim (Option-cases (lookup stream_id st.pending_joins)) [
      | inl e ↦ absurd (cc (rw e at asked))
      | inr (joins, e) ↦ rw e (
          unfold pop_join in
          (
            rw e at asked,
            refl,
            refl,
            rw (lookup-insert, beq_refl stream_id)
                (lookup-erase_self u joins
                  (subst (λ (d : Dict String String). HasDistinctKeys d) (ap default_joins e) h)),
          ))
    ]

pending_joins-save_members :
    (now : ℕ) (f : TrpgSession → TrpgSession) (o : Option TrpgSession) (st : Storage)
    → (save_members now f o st).pending_joins ≡ st.pending_joins
unfolding save_members
pending_joins-save_members now f none st = refl
pending_joins-save_members now f (some s) st = unfold save_session in refl

pending_joins-enter :
    (c : Caller) (u name : String) (note : TrpgSession → TrpgSession) (st : Storage)
    → (enter c u name note st).pending_joins ≡ st.pending_joins
unfolding enter create_player
pending_joins-enter c u name note st =
    let player = new_player c.stream_id u name none c.now st.config in
    let stored : Storage = (save_player player (put_player c.stream_id player st)).0 in
    let created : Storage = (create_player c.stream_id u name none c.now st).0 in
    pending_joins-save_members c.now note (get_session c.stream_id created) created
    ∙ pending_joins-save_members c.now (add_player u c.now) (get_session c.stream_id stored) stored
    ∙ unfold save_player put_player in refl

get_pending_join-pending_joins :
    (stream_id u : String) (st t : Storage)
    → st.pending_joins ≡ t.pending_joins
    → get_pending_join stream_id u st ≡ get_pending_join stream_id u t
unfolding get_pending_join
get_pending_join-pending_joins stream_id u st t e =
    ap (λ (d : Dict String (Dict String String)). lookup stream_id d >>= λ j. lookup u j) e

-- An administrator who confirms a user with a request takes the request out, whatever the action is.
-- The action "accept" gives the user a new character of the requested name; every other action, and
-- every other user, leaves the characters of the stream as they are. The requests of the stream have
-- distinct users, and the requested name is not empty.
pub confirm_decides :
    (c : Caller) (settings : Settings) (action target name : String) (more : List String)
    (st : Storage)
    → is_admin c.user_id settings ≡ true
    → get_pending_join c.stream_id target st ≡ some name
    → name ≢ ""
    → HasDistinctKeys (get_all_pending_joins c.stream_id st)
    → let t = (confirm c settings (action ∷ target ∷ more) st).0 in
      (get_pending_join c.stream_id target t ≡ none)
      × ((w : String)
          → get_player c.stream_id w t ≡ (
              if (lower action == "accept") && target == w
              then some (new_player c.stream_id target name none c.now st.config)
              else get_player c.stream_id w st))
unfolding confirm
confirm_decides c settings action target name more st admin asked named h =
    let (request, players, config, gone) =
      remove_pending_join_lem c.stream_id target st name asked h in
    let popped : Storage = (remove_pending_join c.stream_id target st).0 in
    let full = beq_ne name "" named in
    let same : (w : String) → get_player c.stream_id w popped ≡ get_player c.stream_id w st =
      λ w. get_player-players c.stream_id w popped st players in
    rw (admin, request)
      (unfold confirm_request in
        elim (Bool-cases (lower action == "accept")) [
          | inl accept ↦
              rw (full, accept)
                (
                  get_pending_join-pending_joins c.stream_id target _ popped
                        (pending_joins-enter c target name (confirmed_entry c name) popped)
                      ∙ gone,
                  λ w.
                      get_player-enter c target name (confirmed_entry c name) popped w
                      ∙ rw (config, same w),
                )
          | inr other ↦
              rw (full, other)
                (if_keeps
                  (λ (r : Storage × Reply).
                    (get_pending_join c.stream_id target r.0 ≡ none)
                    × ((w : String) → get_player c.stream_id w r.0 ≡ get_player c.stream_id w st))
                  (lower action == "reject") (λ _. (gone, same)) (λ _. (gone, same)))
        ])
