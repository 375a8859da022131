-- ===== src/Handlers/Missing.antt =====
-- When all are ready, in components/handlers.py: the count of the actions and the missing players.
use mai_bot_trpg_plugin.Prelude.{
  ℕ, suc, ◌+◌, String, ◌≡◌, ◌≢◌, ◌↔◌, refl, sym, ◌∙◌, ap, true, false, Option, none, some, List, [],
  ◌∷◌, arith, eq_iff, ◌==◌, string_eq, contains, remove, IsDistinct, contains-remove_ne,
  contains-remove_self, length, leb, Bool-cases, inl, inr, remove-IsDistinct,
}
use mai_bot_trpg_plugin.Prelude.Dict.{
  Dict, keys, insert, HasDistinctKeys, insert-HasDistinctKeys, contains-keys, lookup, lookup-insert,
}
use mai_bot_trpg_plugin.Handlers.Collector.{
  Action, ActionCollector, add_action, missing_from, get_acted_players, get_missing_players,
}

length-remove :
    (a : String) (xs : List String) → contains a xs ≡ true → length xs ≡ suc (length (remove a xs))
unfolding contains remove
length-remove a [] h = absurd (cc h)
length-remove a (x ∷ xs) h = ground (arith, length-remove a xs)

-- Who is missing does not depend on an id that is not asked for.
missing_from-remove :
    (a : String) (acted ids : List String)
    → contains a ids ≡ false
    → missing_from (remove a acted) ids ≡ missing_from acted ids
unfolding missing_from contains
missing_from-remove a acted [] h = refl
missing_from-remove a acted (u ∷ us) h =
    let ne : u ≢ a = λ e. ground (arith, eq_iff u a) in
    rw (contains-remove_ne u a acted ne, missing_from-remove a acted us (ground arith))

-- Where only listed ids have acted, those who acted and those who are missing are all.
missing_from-length :
    (acted ids : List String)
    → IsDistinct acted
    → IsDistinct ids
    → ((u : String) → contains u acted ≡ true → contains u ids ≡ true)
    → length (missing_from acted ids) + length acted ≡ length ids
unfolding missing_from contains
missing_from-length [] [] h k sub = refl
missing_from-length (a ∷ acted) [] h k sub =
    let here : contains a (a ∷ acted) ≡ true = ground (arith, eq_iff a a) in
    absurd (cc (sub a here))
missing_from-length acted (u ∷ ids) h k sub = elim (Bool-cases (contains u acted)) [
  | inl in_ ↦
      let back : (w : String) → contains w (remove u acted) ≡ true → contains w ids ≡ true = λ w hw.
        elim (Bool-cases (u == w)) [
          | inl same ↦ absurd (ground (arith, contains-remove_self u acted h, eq_iff u w))
          | inr other ↦
              let ne : w ≢ u = λ e. ground (arith, eq_iff u w) in
              ground (arith, sub w (sym (contains-remove_ne w u acted ne) ∙ hw))
        ] in
      let rest = missing_from-length (remove u acted) ids (remove-IsDistinct u acted h) k.1 back in
      let less = length-remove u acted in_ in
      let same = ap (λ (xs : List String). length xs) (missing_from-remove u acted ids k.0) in
      rw in_ (omega (arith, rest, less, same))
  | inr out ↦
      let back : (w : String) → contains w acted ≡ true → contains w ids ≡ true =
        λ w hw. ground (arith, sub w hw, eq_iff u w) in
      let rest = missing_from-length acted ids h k.1 back in rw out (omega (arith, rest))
]

length-keys : {V : Type 0} (d : Dict String V) → length (keys d) ≡ length d
unfolding keys
length-keys [] = refl
length-keys ((k, v) ∷ d) = omega (arith, length-keys d)

keys-IsDistinct : {V : Type 0} (d : Dict String V) → HasDistinctKeys d → IsDistinct (keys d)
unfolding keys lookup
keys-IsDistinct [] h = tt
keys-IsDistinct ((k, v) ∷ d) h = (rw (contains-keys k d, h.0), keys-IsDistinct d h.1)

-- The collector is waiting for its players: nobody is listed twice, everybody is counted, and those
-- who acted are players.
pub record IsWaiting (c : ActionCollector) : Type 0 where
  pub open_ : c.is_processing ≡ false
  pub players : IsDistinct c.player_ids
  pub counted : c.total_players ≡ length c.player_ids
  pub acted : HasDistinctKeys c.actions
  pub listed : (u : String) → contains u (keys c.actions) ≡ true → contains u c.player_ids ≡ true

nil_of_length : (xs : List String) → length xs ≡ 0 → xs ≡ []
nil_of_length [] h = refl
nil_of_length (x ∷ xs) h = absurd (omega (arith, h))

waiting_count :
    (c : ActionCollector)
    → IsWaiting c
    → length (get_missing_players c) + length c.actions ≡ c.total_players
unfolding get_missing_players get_acted_players
waiting_count c h =
    let all_ =
      missing_from-length (keys c.actions) c.player_ids (keys-IsDistinct c.actions h.acted)
        h.players h.listed in
    omega (arith, all_, length-keys c.actions, h.counted)

waiting_ready :
    (c : ActionCollector)
    → IsWaiting c
    → (leb c.total_players (length c.actions) ≡ true) ↔ (get_missing_players c ≡ [])
waiting_ready c h = (
  λ e. nil_of_length (get_missing_players c) (ground (arith, waiting_count c h)),
  λ e.
      let none_ = ap (λ (xs : List String). length xs) e in
      ground (arith, waiting_count c h, none_),
)

insert-IsWaiting :
    (u : String) (a : Action) (time : Option ℕ) (c : ActionCollector)
    → IsWaiting c
    → contains u c.player_ids ≡ true
    → IsWaiting (record c {
      actions = insert u a c.actions;
      first_action_time = time;
      is_processing = false;
    })
insert-IsWaiting u a time c h member = record {
  open_ = refl;
  players = h.players;
  counted = h.counted;
  acted = insert-HasDistinctKeys u a c.actions h.acted;
  listed = λ w hw.
      let was = sym (contains-keys w (insert u a c.actions)) ∙ hw in
      let before = contains-keys w c.actions in
      ground (arith, was, before, lookup-insert u w a c.actions, h.listed w, eq_iff u w);
}

-- While a collector waits and a player acts, it goes on waiting, and it reports that all are ready
-- exactly when no player is missing any more.
pub add_action-all_ready :
    (u name action : String) (now : ℕ) (c : ActionCollector)
    → IsWaiting c
    → contains u c.player_ids ≡ true
    → let (t, added) = add_action u name action now c in
      IsWaiting t × ((added.all_ready ≡ true) ↔ (get_missing_players t ≡ []))
unfolding add_action
add_action-all_ready u name action now c h member =
    let entry : Action = record {
      user_id = u;
      character_name = name;
      action = action;
      timestamp = now;
    } in
    let time : Option ℕ = elim c.first_action_time [ none ↦ some now | some t ↦ some t ] in
    let goes_on = insert-IsWaiting u entry time c h member in
    rw h.open_ (goes_on, waiting_ready _ goes_on)
