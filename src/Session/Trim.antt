-- ===== src/Session/Trim.antt =====
-- What `trim_history` of models/session.py keeps.
use mai_bot_trpg_plugin.Prelude.{
  ℕ, zero, suc, ◌+◌, ◌-◌, ◌≤◌, ◌<◌, ◌≡◌, refl, sym, ◌∙◌, ap, List, [], ◌∷◌, ◌++◌, arith, length,
  take, drop, inl, inr, Bool-cases, leb, length-drop, take-append-drop, nat_eq,
}
use native.Mathlib.Nat.{zero-add, suc-add}
use mai_bot_trpg_plugin.Session.Defs.{TrpgSession, trim_history}

drop-nil : {A : Type 0} (n : ℕ) → drop {A = A} n [] ≡ []
drop-nil zero = refl
drop-nil (suc n) = refl

drop-drop : {A : Type 0} (m n : ℕ) (xs : List A) → drop m (drop n xs) ≡ drop (n + m) xs
drop-drop m zero xs = rw zero-add
drop-drop m (suc n) [] = drop-nil m ∙ sym (drop-nil (suc n + m))
drop-drop m (suc n) (x ∷ xs) = rw (suc-add n m) (drop-drop m n xs)

drop_behind : {A : Type 0} (i r : ℕ) (xs : List A) → r ≤ i → drop (i - r) (drop r xs) ≡ drop i xs
drop_behind i r xs h =
    let e : r + (i - r) ≡ i = omega arith in drop-drop (i - r) r xs ∙ ap (λ k. drop k xs) e

module _ (bound now : ℕ) (s : TrpgSession) (positive : 0 < bound) where
  -- The three branches in one: what is removed and what stays, also where nothing is removed.
  trim_history_lem :
      ((trim_history bound now s).1 ≡ length s.history - bound)
      × ((trim_history bound now s).0.history ≡ drop (length s.history - bound) s.history)
      × ((trim_history bound now s).0.story_context.last_summary_history_index
          ≡ s.story_context.last_summary_history_index - (length s.history - bound))
      × ((trim_history bound now s).0.story_context.last_image_history_index
          ≡ s.story_context.last_image_history_index - (length s.history - bound))
  unfolding trim_history
  trim_history_lem = elim (Bool-cases (leb (length s.history) bound)) [
    | inl short ↦
        let e : length s.history - bound ≡ 0 = ground arith in
        rw e (ground arith, ground arith, ground arith, ground arith)
    | inr long ↦ (ground arith, ground arith, ground arith, ground arith)
  ]

  -- With a positive bound, trimming removes the oldest entries only and as few as the bound needs,
  -- reports how many, and leaves at most the bound.
  pub trim_history_oldest :
      let (t, removed) = trim_history bound now s in
      (removed ≡ length s.history - bound)
      × (take removed s.history ++ t.history ≡ s.history)
      × (length t.history + removed ≡ length s.history)
      × (length t.history ≤ bound)
  trim_history_oldest =
      let (count, kept, _, _) = trim_history_lem in
      let size = length-drop (length s.history - bound) s.history in
      (
        count,
        rw (count, kept) (take-append-drop (length s.history - bound) s.history),
        rw (count, kept) (omega (arith, size)),
        rw kept (omega (arith, size)),
      )

  -- Trimming keeps what is not summarised yet: where the summary covers all that is removed, the
  -- entries behind its index are the same before and after, and so for the index of the last image.
  pub trim_history_pending :
      let (t, removed) = trim_history bound now s in
      (removed ≤ s.story_context.last_summary_history_index
        → drop t.story_context.last_summary_history_index t.history
          ≡ drop s.story_context.last_summary_history_index s.history)
      × (removed ≤ s.story_context.last_image_history_index
          → drop t.story_context.last_image_history_index t.history
            ≡ drop s.story_context.last_image_history_index s.history)
  trim_history_pending =
      let (count, kept, summary, image) = trim_history_lem in
      (
        λ h. rw (summary, kept) (drop_behind _ _ s.history (rw count at h)),
        λ h. rw (image, kept) (drop_behind _ _ s.history (rw count at h)),
      )
