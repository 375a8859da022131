-- ===== src/DmEngine/Users.antt =====
-- The loop over the users of a table, in `apply_state_changes` of services/dm_engine.py.
use mai_bot_trpg_plugin.Prelude.{
  String, ◌≡◌, refl, sym, ◌∙◌, ap, true, false, Option, none, some, List, [], ◌∷◌, arith, string_eq,
  ◌==◌, if◌then◌else◌, Bool-cases, inl, inr, eq_iff, beq_refl, is_some,
}
use mai_bot_trpg_plugin.Prelude.Dict.{Dict, lookup, lookup-insert, HasDistinctKeys}
use mai_bot_trpg_plugin.Json.{◌>>=◌}
use mai_bot_trpg_plugin.Player.Defs.{Player}
use mai_bot_trpg_plugin.Player.Codec.{player_to_dict, attributes_to_dict}
use mai_bot_trpg_plugin.Storage.Defs.{Storage, get_player, save_player}
use mai_bot_trpg_plugin.Storage.Slots.{get_player_lem}
use mai_bot_trpg_plugin.Storage.RoundTrip.{get_player-players}
use mai_bot_trpg_plugin.Dice.Terms.{bind_some}
use mai_bot_trpg_plugin.DmEngine.Apply.{
  Worked, Applied, Note, keep_player, saved_with, save_worked, append_notes, after_notes,
  work_found, for_users,
}
use mai_bot_trpg_plugin.DmEngine.Work.{
  is_intact, intact_parts, IsWritable, AllWritable, IsSafe, AllValues,
}

get_player-keep_player :
    (stream_id u w : String) (p : Player) (st : Storage)
    → get_player stream_id w (keep_player stream_id u p st)
      ≡ (if u == w then some p else get_player stream_id w st)
get_player-keep_player stream_id u w p st =
    unfold keep_player in
    unfold get_player in
    rw (lookup-insert, beq_refl stream_id, lookup-insert)
      (rw (← get_player_lem stream_id w st) refl)

-- What a table does to the character of a user.
abbrev pub settle : {V : Type 0} → (V → Player → Worked) → Dict String V → String → Player → Player
settle work d w p = elim (lookup w d) [ none ↦ p | some v ↦ (work v p).0 ]

saved_with-save_player :
    (p : Player) (notes : List Note) (st : Storage)
    → IsWritable p
    → saved_with notes (save_player p st) ≡ ((save_player p st).0, some notes)
saved_with-save_player p notes st h =
    unfold save_player in
    unfold player_to_dict in
    unfold attributes_to_dict in
    rw (intact_parts p.attributes.overwritten h).0 (unfold saved_with in refl)

some_self : {A : Type 0} (o : Option A) → o ≡ (o >>= λ a. some a)
some_self none = refl
some_self (some a) = refl

bind_ext :
    {A B : Type 0} (o : Option A) (f g : A → B)
    → ((a : A) → f a ≡ g a)
    → (o >>= λ a. some (f a)) ≡ (o >>= λ a. some (g a))
bind_ext none f g h = refl
bind_ext (some a) f g h = ap some (h a)

pub bind_twice :
    {A : Type 0} (o : Option A) (f g h : A → A)
    → ((a : A) → g (f a) ≡ h a)
    → (o >>= (λ a. some (f a)) >>= λ a. some (g a)) ≡ (o >>= λ a. some (h a))
bind_twice none f g h e = refl
bind_twice (some a) f g h e = ap some (e a)

append_notes_lem :
    (notes : List Note) (r : Applied)
    → ((append_notes notes r).0 ≡ r.0) × (is_some (append_notes notes r).1 ≡ is_some r.1)
unfolding append_notes
append_notes_lem notes (t, none) = (refl, refl)
append_notes_lem notes (t, some more) = (refl, refl)

-- After a step that raised nothing, the next one goes on.
pub after_notes_lem :
    (next : Storage → Applied) (r : Applied)
    → is_some r.1 ≡ true
    → ((after_notes next r).0 ≡ (next r.0).0)
      × (is_some (after_notes next r).1 ≡ is_some (next r.0).1)
unfolding after_notes
after_notes_lem next (t, none) h = absurd (cc h)
after_notes_lem next (t, some notes) h = append_notes_lem notes (next t)

module _ {V : Type 0} (work : V → Player → Worked) (stream_id : String) where
  -- One user of a table.
  abbrev Stepped : String → V → Storage → Applied → Type 0
  Stepped u v st r =
      (is_some r.1 ≡ true)
      × ((w : String)
          → get_player stream_id w r.0 ≡ (
              if u == w
              then (get_player stream_id u st >>= λ p. some (work v p).0)
              else get_player stream_id w st))

  abbrev Settled : Dict String V → Storage → Applied → Type 0
  Settled d st r =
      (is_some r.1 ≡ true)
      × AllWritable stream_id r.0
      × ((w : String)
          → get_player stream_id w r.0
            ≡ (get_player stream_id w st >>= λ p. some (settle work d w p)))

  save_worked-Stepped :
      (u : String) (v : V) (p : Player) (st : Storage)
      → get_player stream_id u st ≡ some p
      → (r : Worked) → work v p ≡ r
      → is_some r.1 ≡ true
      → IsWritable r.0
      → Stepped u v st (save_worked stream_id u r st)
  unfolding save_worked
  save_worked-Stepped u v p st e (q, none) done ok fine = absurd (cc ok)
  save_worked-Stepped u v p st e (q, some notes) done ok fine =
      rw (saved_with-save_player q notes (keep_player stream_id u q st) fine) (
        refl,
        λ w.
            get_player-players stream_id w _ (keep_player stream_id u q st)
              (unfold save_player in refl)
            ∙ get_player-keep_player stream_id u w q st
            ∙ rw (e, done),
      )

  work_found-Stepped :
      (u : String) (v : V) (o : Option Player) (st : Storage)
      → IsSafe (work v)
      → get_player stream_id u st ≡ o
      → AllWritable stream_id st
      → Stepped u v st (work_found work stream_id u v o st)
  unfolding work_found
  work_found-Stepped u v none st safe e all_writable = (
    refl,
    λ w. elim (Bool-cases (u == w)) [
      | inl here ↦
          let same : u ≡ w = ground (arith, eq_iff u w) in
          rw (here, e) (ap (λ x. get_player stream_id x st) (sym same) ∙ e)
      | inr other ↦ rw other
    ],
  )
  work_found-Stepped u v (some p) st safe e all_writable =
      let (ok, fine) = safe p (all_writable u p e) in
      save_worked-Stepped u v p st e (work v p) refl ok fine

  -- A step leaves characters that can be written.
  Stepped-AllWritable :
      (u : String) (v : V) (st : Storage) (r : Applied)
      → IsSafe (work v)
      → AllWritable stream_id st
      → Stepped u v st r
      → AllWritable stream_id r.0
  Stepped-AllWritable u v st r safe k (ok, same) w q e = elim (Bool-cases (u == w)) [
    | inl here ↦
        let (p, found, f) =
          bind_some (get_player stream_id u st) (λ p. some (work v p).0) q
            (sym (rw here at (same w)) ∙ e) in
        let g : (work v p).0 ≡ q = cc f in
        ap (λ (x : Player). is_intact x.attributes.overwritten) (sym g) ∙ (safe p (k u p found)).1
    | inr other ↦ k w q (sym (rw other at (same w)) ∙ e)
  ]

  settle-first :
      (u : String) (v : V) (rest : Dict String V) (p : Player)
      → lookup u rest ≡ none
      → settle work rest u (work v p).0 ≡ settle work ((u, v) ∷ rest) u p
  unfolding lookup
  settle-first u v rest p h = rw (settle, h, beq_refl u)

  settle-later :
      (u w : String) (v : V) (rest : Dict String V) (p : Player)
      → (u == w) ≡ false
      → settle work rest w p ≡ settle work ((u, v) ∷ rest) w p
  unfolding lookup
  settle-later u w v rest p h = rw (settle, h)

  -- What one user and the rest of a table do, put together.
  settle-cons :
      (u w : String) (v : V) (rest : Dict String V) (st : Storage)
      → lookup u rest ≡ none
      → ((if u == w
            then (get_player stream_id u st >>= λ p. some (work v p).0)
            else get_player stream_id w st)
          >>= λ p. some (settle work rest w p))
        ≡ (get_player stream_id w st >>= λ p. some (settle work ((u, v) ∷ rest) w p))
  settle-cons u w v rest st h = elim (Bool-cases (u == w)) [
    | inl here ↦
        let same : u ≡ w = ground (arith, eq_iff u w) in
        rw (here, ← same)
          (bind_twice (get_player stream_id u st) (λ p. (work v p).0) (settle work rest u)
            (settle work ((u, v) ∷ rest) u) (λ p. settle-first u v rest p h))
    | inr other ↦ rw other (
        bind_ext (get_player stream_id w st) (settle work rest w) (settle work ((u, v) ∷ rest) w)
          (λ p. settle-later u w v rest p other))
  ]

  pub for_users-Settled :
      (d : Dict String V) (st : Storage)
      → HasDistinctKeys d
      → AllValues (λ v. IsSafe (work v)) d
      → AllWritable stream_id st
      → Settled d st (for_users work stream_id d st)
  unfolding for_users
  for_users-Settled [] st h safe k = (refl, k, λ w. some_self (get_player stream_id w st))
  for_users-Settled ((u, v) ∷ rest) st h safe k =
      let r = work_found work stream_id u v (get_player stream_id u st) st in
      let step = work_found-Stepped u v (get_player stream_id u st) st safe.0 refl k in
      let (ok, writable, rest_lem) =
        for_users-Settled rest r.0 h.1 safe.1 (Stepped-AllWritable u v st r safe.0 k step) in
      let (same, done) = after_notes_lem (for_users work stream_id rest) r step.0 in
      (
        done ∙ ok,
        λ w p e. writable w p (sym (ap (get_player stream_id w) same) ∙ e),
        λ w.
            ap (get_player stream_id w) same
            ∙ rest_lem w
            ∙ ap (λ (o : Option Player). o >>= λ p. some (settle work rest w p)) (step.1 w)
            ∙ settle-cons u w v rest st h.0,
      )
