-- ===== src/Player/Access.antt =====
-- `get_attribute` and `set_attribute` of models/player.py, under all the names of an attribute.
use mai_bot_trpg_plugin.Prelude.{
  String, ◌≡◌, ◌≢◌, refl, sym, ◌∙◌, ap, true, false, some, ◌==◌, Bool-cases, inl, inr, string_eq,
}
use mai_bot_trpg_plugin.Prelude.Int.{ℤ}
use mai_bot_trpg_plugin.Prelude.Dict.{has_key}
use mai_bot_trpg_plugin.Player.Attributes.{
  Attribute, attribute_eq, attribute_beq_iff, PlayerAttributes, Reference, field, method, missing,
  resolve, write, get_value, set_value, get_attribute, set_attribute, read-write, overwritten-write,
}

get_value-write :
    (r : Reference) (a : Attribute) (v : ℤ) (p : PlayerAttributes)
    → (r ≡ field a → get_value r (write a v p) ≡ some v)
      × (r ≢ field a → get_value r (write a v p) ≡ get_value r p)
unfolding get_value
get_value-write (field b) a v p = elim (Bool-cases (a == b)) [
  | inl same ↦ (
    λ e. rw (read-write a b v p, same) refl,
    λ ne. absurd (ne (ap field (sym ((attribute_beq_iff a b).0 same)))),
  )
  | inr other ↦ (
    λ e. let same : a ≡ b = cc e in absurd (cc (other, (attribute_beq_iff a b).1 same)),
    λ ne. rw (read-write a b v p, other) refl,
  )
]
get_value-write (method m) a v p = (λ e. absurd (cc e), λ ne. rw (overwritten-write a v p) refl)
get_value-write missing a v p = (λ e. absurd (cc e), λ ne. refl)

-- Where `get_attribute` and `set_attribute` are not overwritten, setting an attribute under any of its
-- names succeeds. Every name of that attribute then gives the value that was set, and every other name
-- gives what it gave before.
pub get_attribute-set_attribute :
    (name : String) (a : Attribute) (v : ℤ) (p : PlayerAttributes)
    → resolve name ≡ field a
    → has_key "get_attribute" p.overwritten ≡ false
    → has_key "set_attribute" p.overwritten ≡ false
    → (q : PlayerAttributes) × (set_attribute name v p ≡ some (q, true))
      × ((other : String)
          → (resolve other ≡ resolve name → get_attribute other q ≡ some v)
            × (resolve other ≢ resolve name → get_attribute other q ≡ get_attribute other p))
get_attribute-set_attribute name a v p e got put =
    let kept : has_key "get_attribute" (write a v p).overwritten ≡ false =
      rw (overwritten-write a v p) got in
    (
      write a v p,
      unfold set_attribute in rw (put, e) (unfold set_value in refl),
      λ other.
          let value = get_value-write (resolve other) a v p in
          (
            λ same. unfold get_attribute in rw kept (value.0 (same ∙ e)),
            λ ne. unfold get_attribute in rw (kept, got) (value.1 (λ same. ne (same ∙ sym e))),
          ),
    )
