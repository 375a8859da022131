-- ===== src/Player/Points.antt =====
-- The point-buy system of models/player.py: what `allocate_point`, `reset_points`, `lock_character`
-- and `unlock_character` keep over every sequence of calls.
use mai_bot_trpg_plugin.Prelude.{
  ℕ, String, ◌≡◌, refl, inl, inr, Bool, true, false, none, some, List, [], ◌∷◌, arith, ◌==◌,
  beq_refl, Bool-cases, if_keeps, string_eq, if◌then◌else◌, ◌∙◌, ap,
}
use mai_bot_trpg_plugin.Prelude.Int.{ℤ, pos, ◌+ℤ◌, ◌≤ℤ◌, int_laws, +ℤ_parts, parts_of_eq}
use mai_bot_trpg_plugin.Prelude.Dict.{
  Dict, lookup, lookup_or, has_key, HasDistinctKeys, insert-HasDistinctKeys,
}
use mai_bot_trpg_plugin.Prelude.Totals.{sum, sum-insert, lookup_or-insert, lookup_or-cons}
use mai_bot_trpg_plugin.Player.Attributes.{
  Attribute, attribute_eq, attribute_beq_iff, Reference, field, method, missing, resolve, read,
  read-write,
}
use mai_bot_trpg_plugin.Player.Defs.{
  Player, Allocation, allocated, allocated_to, apply_points, allocate_to, allocate_by,
  allocate_point, lock_character, unlock_character, take_back, calls_fail, Reset, paid_back,
  after_refund, reset_points,
}
use mai_bot_trpg_plugin.Player.Refund.{
  lookup_or_missing, read-take_back, take_back_total, refund-some, refund-cases,
}

-- The character stands on the attributes `base`, and has had `total` points to spend.
pub record IsBuilt (base : Attribute → ℤ) (total : ℤ) (p : Player) : Type 0 where
  pub based : (a : Attribute) → read a p.attributes ≡ base a +ℤ allocated_to a p
  pub paid : p.free_points +ℤ sum p.points_allocated ≡ total
  pub solvent : pos 0 ≤ℤ p.free_points
  pub nonneg : (a : Attribute) → pos 0 ≤ℤ allocated_to a p
  pub distinct : HasDistinctKeys p.points_allocated

-- What `apply_points` leaves allocated to each attribute.
allocated_to-apply_points :
    (a b : Attribute) (x : ℤ) (now : ℕ) (p : Player)
    → allocated_to b (apply_points a x now p)
      ≡ (if a == b then allocated_to a p +ℤ x else allocated_to b p)
unfolding allocated_to apply_points
allocated_to-apply_points a b x now p =
    lookup_or-insert a b (pos 0) (lookup_or a (pos 0) p.points_allocated +ℤ x) p.points_allocated

read-apply_points :
    (a b : Attribute) (x : ℤ) (now : ℕ) (p : Player)
    → read b (apply_points a x now p).attributes
      ≡ (if a == b then read a p.attributes +ℤ x else read b p.attributes)
unfolding apply_points
read-apply_points a b x now p = read-write a b (read a p.attributes +ℤ x) p.attributes

sum-apply_points :
    (a : Attribute) (x : ℤ) (now : ℕ) (p : Player)
    → sum (apply_points a x now p).points_allocated ≡ sum p.points_allocated +ℤ x
unfolding allocated_to apply_points
sum-apply_points a x now p =
    omega (int_laws, parts_of_eq (sum-insert a (allocated_to a p +ℤ x) p.points_allocated))

module _ {base : Attribute → ℤ} {total : ℤ} where
  -- The guards of `allocate_point` leave enough free points and no negative allocation.
  pub apply_points-IsBuilt :
      (a : Attribute) (x : ℤ) (now : ℕ) (p : Player)
      → x ≤ℤ p.free_points
      → pos 0 ≤ℤ allocated_to a p +ℤ x
      → IsBuilt base total p
      → IsBuilt base total (apply_points a x now p)
  apply_points-IsBuilt a x now p enough left h = record {
    based = λ b. elim (Bool-cases (a == b)) [
      | inl same ↦
          let e : a ≡ b = (attribute_beq_iff a b).0 same in
          rw (read-apply_points, allocated_to-apply_points, same)
            (omega (int_laws, parts_of_eq (h.based a), parts_of_eq (ap base e)))
      | inr other ↦ rw (read-apply_points, allocated_to-apply_points, other) (h.based b)
    ];
    paid = rw sum-apply_points (unfold apply_points in omega (int_laws, parts_of_eq h.paid));
    solvent = unfold apply_points in omega (int_laws, h.solvent);
    nonneg = λ b. rw allocated_to-apply_points (ground (arith, h.nonneg b));
    distinct =
        unfold apply_points in
        insert-HasDistinctKeys a (allocated_to a p +ℤ x) p.points_allocated h.distinct;
  }

  pub allocate_to-IsBuilt :
      (a : Attribute) (x lo hi : ℤ) (now : ℕ) (p : Player)
      → IsBuilt base total p
      → IsBuilt base total (allocate_to a x lo hi now p).0
  unfolding allocate_to
  allocate_to-IsBuilt a x lo hi now p h =
      elim (Bool-cases (has_key "get_attribute" p.attributes.overwritten)) [
        | inl bad ↦ rw bad (ground (arith, h))
        | inr got ↦ elim (Bool-cases (has_key "set_attribute" p.attributes.overwritten)) [
          | inl bad ↦ rw (got, bad) (ground (arith, h))
          | inr put ↦
              rw (got, put)
                (ground (
                  arith,
                  apply_points-IsBuilt a x now p,
                  h.solvent,
                  h.nonneg a,
                  +ℤ_parts (allocated_to a p) x,
                ))
        ]
      ]

  allocate_by-IsBuilt :
      (r : Reference) (x lo hi : ℤ) (now : ℕ) (p : Player)
      → IsBuilt base total p
      → IsBuilt base total (allocate_by r x lo hi now p).0
  unfolding allocate_by
  allocate_by-IsBuilt (field a) x lo hi now p h = allocate_to-IsBuilt a x lo hi now p h
  allocate_by-IsBuilt (method m) x lo hi now p h = ground arith
  allocate_by-IsBuilt missing x lo hi now p h = h

  pub allocate_point-IsBuilt :
      (name : String) (x lo hi : ℤ) (now : ℕ) (p : Player)
      → IsBuilt base total p
      → IsBuilt base total (allocate_point name x lo hi now p).0
  unfolding allocate_point
  allocate_point-IsBuilt name x lo hi now p h =
      if_keeps (λ (r : Player × Allocation). IsBuilt base total r.0) p.character_locked (λ _. h)
        (λ _. allocate_by-IsBuilt (resolve name) x lo hi now p h)

module _ {base : Attribute → ℤ} {total : ℤ} where
  -- Resetting an unlocked character whose accounts are in order, and whose `get_attribute` and
  -- `set_attribute` are not overwritten, gives every point back, and the attributes it started from.
  pub reset_points_restores :
      (now : ℕ) (p : Player)
      → p.character_locked ≡ false
      → calls_fail p.attributes ≡ false
      → IsBuilt base total p
      → let (q, ended) = reset_points now p in
        (ended ≡ paid_back (sum p.points_allocated))
        × (q.free_points ≡ total)
        × (q.points_allocated ≡ [])
        × ((a : Attribute) → read a q.attributes ≡ base a)
  unfolding reset_points
  reset_points_restores now p open_ callable h =
      rw (open_, refund-some p.points_allocated p.attributes callable)
        (unfold after_refund in
          (
            ap paid_back (take_back_total p.points_allocated p.attributes (pos 0) ∙ omega int_laws),
            ap (λ t. p.free_points +ℤ t) (take_back_total p.points_allocated p.attributes (pos 0))
                ∙ omega (int_laws, parts_of_eq h.paid),
            refl,
            λ a.
                read-take_back a p.points_allocated p.attributes (pos 0) h.distinct
                ∙ unfold allocated_to in omega (int_laws, parts_of_eq (h.based a)),
          ))

-- The calls that a player or an administrator makes.
pub data Call : Type 0 where
  allocate : (name : String) (points lo hi : ℤ) → Call
  reset lock unlock : Call

pub run_call : ℕ → Call → Player → Player
run_call now (allocate name points lo hi) p = (allocate_point name points lo hi now p).0
run_call now reset p = (reset_points now p).0
run_call now lock p = (lock_character now p).0
run_call now unlock p = (unlock_character now p).0

pub run_calls : List (ℕ × Call) → Player → Player
unfolding run_call
run_calls [] p = p
run_calls ((now, c) ∷ cs) p = run_calls cs (run_call now c p)

tail_nonneg :
    (a : Attribute) (v : ℤ) (d : Dict Attribute ℤ)
    → lookup a d ≡ none
    → ((b : Attribute) → pos 0 ≤ℤ lookup_or b (pos 0) ((a, v) ∷ d))
    → (b : Attribute) → pos 0 ≤ℤ lookup_or b (pos 0) d
tail_nonneg a v d h k b = elim (Bool-cases (a == b)) [
  | inl same ↦ rw (← (attribute_beq_iff a b).0 same, lookup_or_missing a d h) (omega arith)
  | inr other ↦ rw (lookup_or-cons b a (pos 0) v d, other) at (k b)
]

-- A table with distinct keys whose entries are not negative has no negative sum.
sum_nonneg :
    (d : Dict Attribute ℤ)
    → HasDistinctKeys d
    → ((a : Attribute) → pos 0 ≤ℤ lookup_or a (pos 0) d)
    → pos 0 ≤ℤ sum d
unfolding sum
sum_nonneg [] h k = omega arith
sum_nonneg ((a, v) ∷ d) h k =
    let head : pos 0 ≤ℤ v = rw (lookup_or-cons a a (pos 0) v d, beq_refl a) at (k a) in
    omega (int_laws, head, sum_nonneg d h.1 (tail_nonneg a v d h.0 k))

module _ {base : Attribute → ℤ} {total : ℤ} where
  relock-IsBuilt :
      (shut : Bool) (now : ℕ) (p : Player)
      → IsBuilt base total p
      → IsBuilt base total (record p { character_locked = shut; updated_at = now })
  unfolding allocated_to
  relock-IsBuilt shut now p h = record {
    based = h.based;
    paid = h.paid;
    solvent = h.solvent;
    nonneg = h.nonneg;
    distinct = h.distinct;
  }

  after_refund-IsBuilt :
      (now : ℕ) (p : Player)
      → IsBuilt base total p
      → IsBuilt base total
          (after_refund now p (some (take_back p.points_allocated p.attributes (pos 0)))).0
  unfolding after_refund allocated_to
  after_refund-IsBuilt now p h = record {
    based = λ a.
        read-take_back a p.points_allocated p.attributes (pos 0) h.distinct
        ∙ unfold allocated_to lookup_or lookup in omega (int_laws, parts_of_eq (h.based a));
    paid =
        unfold sum in
        omega (
          int_laws,
          parts_of_eq (take_back_total p.points_allocated p.attributes (pos 0)),
          parts_of_eq h.paid,
        );
    solvent = omega (
      int_laws,
      parts_of_eq (take_back_total p.points_allocated p.attributes (pos 0)),
      h.solvent,
      sum_nonneg p.points_allocated h.distinct h.nonneg,
    );
    nonneg = λ a. unfold allocated_to lookup_or lookup in omega arith;
    distinct = tt;
  }

  reset_points-IsBuilt :
      (now : ℕ) (p : Player) → IsBuilt base total p → IsBuilt base total (reset_points now p).0
  unfolding reset_points
  reset_points-IsBuilt now p h =
      if_keeps (λ (r : Player × Reset). IsBuilt base total r.0) p.character_locked (λ _. h)
        (λ _. elim (refund-cases p.points_allocated p.attributes) [
          | inl e ↦ rw e (unfold after_refund in h)
          | inr e ↦ rw e (after_refund-IsBuilt now p h)
        ])

  run_call-IsBuilt :
      (now : ℕ) (c : Call) (p : Player)
      → IsBuilt base total p
      → IsBuilt base total (run_call now c p)
  unfolding run_call
  run_call-IsBuilt now (allocate name x lo hi) p h = allocate_point-IsBuilt name x lo hi now p h
  run_call-IsBuilt now reset p h = reset_points-IsBuilt now p h
  run_call-IsBuilt now lock p h =
      unfold lock_character in
      if_keeps (λ (r : Player × Bool). IsBuilt base total r.0) p.character_locked (λ _. h)
        (λ _. relock-IsBuilt true now p h)
  run_call-IsBuilt now unlock p h =
      unfold unlock_character in
      if_keeps (λ (r : Player × Bool). IsBuilt base total r.0) p.character_locked
        (λ _. relock-IsBuilt false now p h) (λ _. h)

  -- From a character whose accounts are in order, any sequence of allocations, resets, locks and unlocks
  -- keeps every attribute at its base value plus what is allocated to it, the points spent and left at
  -- their total, and none below zero.
  pub run_calls-IsBuilt :
      (cs : List (ℕ × Call)) (p : Player)
      → IsBuilt base total p
      → IsBuilt base total (run_calls cs p)
  unfolding run_calls
  run_calls-IsBuilt [] p h = h
  run_calls-IsBuilt ((now, c) ∷ cs) p h =
      run_calls-IsBuilt cs (run_call now c p) (run_call-IsBuilt now c p h)

-- An allocation that goes through leaves its attribute in the bounds and adds exactly the points to
-- it, leaves every other attribute as it was, and reports the value before, the value after and the
-- points that are left.
pub allocate_to_effect :
    (a : Attribute) (x lo hi : ℤ) (now : ℕ) (p : Player) {current new left : ℤ}
    → (allocate_to a x lo hi now p).1 ≡ allocated current new left
    → let q = (allocate_to a x lo hi now p).0 in
      (current ≡ read a p.attributes)
      × (new ≡ current +ℤ x)
      × (left ≡ q.free_points)
      × (lo ≤ℤ new)
      × (new ≤ℤ hi)
      × ((b : Attribute) → read b q.attributes ≡ (if a == b then new else read b p.attributes))
unfolding allocate_to apply_points
allocate_to_effect a x lo hi now p h = (
  ground arith,
  ground arith,
  ground arith,
  ground arith,
  ground arith,
  λ b. ground (arith, read-write a b (read a p.attributes +ℤ x) p.attributes),
)
