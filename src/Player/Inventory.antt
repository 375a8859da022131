-- ===== src/Player/Inventory.antt =====
-- The inventory of models/player.py: how much of each item a character holds.
use mai_bot_trpg_plugin.Prelude.{
  ℕ, String, ◌≡◌, refl, ◌≢◌, ◌↔◌, Option, none, some, List, [], ◌∷◌, ◌++◌, arith, ◌==◌, string_eq,
  eq_iff, if◌then◌else◌,
}
use mai_bot_trpg_plugin.Prelude.Int.{ℤ, pos, ◌+ℤ◌, ◌-ℤ◌, ◌≤ℤ◌, leb_ℤ, int_laws}
use mai_bot_trpg_plugin.Player.Item.{InventoryItem, grow, shrink, find_item}
use mai_bot_trpg_plugin.Player.Defs.{Player, new_item, add_item, remove_item, get_item}

-- The quantity of an item that is found, and 0 where there is none.
abbrev pub quantity_in : Option InventoryItem → ℤ
quantity_in none = pos 0
quantity_in (some item) = item.quantity

abbrev pub held : String → Player → ℤ
held name p = quantity_in (get_item name p)

-- No two items have one name.
abbrev pub HasDistinctNames : List InventoryItem → Type 0
HasDistinctNames [] = Unit
HasDistinctNames (item ∷ rest) = (find_item item.name rest ≡ none) × HasDistinctNames rest

-- The inventory after the loop of `add_item`, with the new item behind it where none was found.
abbrev grown : String → ℤ → List InventoryItem → List InventoryItem
grown name q items = elim (grow name q items) [
  | some (l, i) ↦ l
  | none ↦ items ++ new_item name q ∷ []
]

abbrev shrunk : String → ℤ → List InventoryItem → List InventoryItem
shrunk name q items = elim (shrink name q items) [ some (l, i) ↦ l | none ↦ items ]

zero_add : (x : ℤ) → pos 0 +ℤ x ≡ x
zero_add x = omega int_laws

find-grown :
    (n m : String) (q : ℤ) (items : List InventoryItem)
    → quantity_in (find_item m (grown n q items))
      ≡ (if n == m then quantity_in (find_item m items) +ℤ q else quantity_in (find_item m items))
unfolding grow find_item
find-grown n m q [] = ground (arith, zero_add q)
find-grown n m q (item ∷ rest) =
    ground (arith, find-grown n m q rest, eq_iff n m, eq_iff item.name n, eq_iff item.name m)

find-shrunk :
    (n m : String) (q : ℤ) (items : List InventoryItem)
    → pos 0 ≤ℤ q
    → HasDistinctNames items
    → quantity_in (find_item m (shrunk n q items)) ≡ (
        if n == m
        then (if leb_ℤ (quantity_in (find_item m items)) q
            then pos 0
            else quantity_in (find_item m items) -ℤ q)
        else quantity_in (find_item m items))
unfolding shrink find_item
find-shrunk n m q [] k h = ground arith
find-shrunk n m q (item ∷ rest) k h =
    ground (arith, find-shrunk n m q rest k h.1, eq_iff n m, eq_iff item.name n, eq_iff item.name m)

find-grown-none :
    (n m : String) (q : ℤ) (items : List InventoryItem)
    → n ≢ m
    → find_item m items ≡ none
    → find_item m (grown n q items) ≡ none
unfolding grow find_item
find-grown-none n m q [] h e = ground (arith, eq_iff n m)
find-grown-none n m q (item ∷ rest) h e =
    ground (arith, find-grown-none n m q rest h, eq_iff item.name m, eq_iff item.name n)

find-shrunk-none :
    (n m : String) (q : ℤ) (items : List InventoryItem)
    → find_item m items ≡ none
    → find_item m (shrunk n q items) ≡ none
unfolding shrink find_item
find-shrunk-none n m q [] e = refl
find-shrunk-none n m q (item ∷ rest) e = ground (arith, find-shrunk-none n m q rest)

grown-HasDistinctNames :
    (n : String) (q : ℤ) (items : List InventoryItem)
    → HasDistinctNames items
    → HasDistinctNames (grown n q items)
unfolding grow find_item
grown-HasDistinctNames n q [] h = (refl, tt)
grown-HasDistinctNames n q (item ∷ rest) h = ground (
  arith,
  grown-HasDistinctNames n q rest h.1,
  find-grown-none n item.name q rest,
  eq_iff item.name n,
)

shrunk-HasDistinctNames :
    (n : String) (q : ℤ) (items : List InventoryItem)
    → HasDistinctNames items
    → HasDistinctNames (shrunk n q items)
unfolding shrink find_item
shrunk-HasDistinctNames n q [] h = tt
shrunk-HasDistinctNames n q (item ∷ rest) h =
    ground (arith, shrunk-HasDistinctNames n q rest h.1, find-shrunk-none n item.name q rest h.0)

grown_lem :
    (n : String) (q : ℤ) (now : ℕ) (p : Player)
    → (add_item n q now p).0.inventory ≡ grown n q p.inventory
unfolding add_item
grown_lem n q now p = ground arith

shrunk_lem :
    (n : String) (q : ℤ) (now : ℕ) (p : Player)
    → (remove_item n q now p).0.inventory ≡ shrunk n q p.inventory
unfolding remove_item
shrunk_lem n q now p = ground arith

-- Adding a quantity of one item raises what is held of it by that quantity, changes nothing else
-- that is held, and keeps the names distinct.
pub add_item-held :
    (n : String) (q : ℤ) (now : ℕ) (p : Player)
    → ((m : String) → held m (add_item n q now p).0 ≡ (if n == m then held m p +ℤ q else held m p))
      × (HasDistinctNames p.inventory → HasDistinctNames (add_item n q now p).0.inventory)
unfolding get_item
add_item-held n q now p = (
  λ m. rw grown_lem (find-grown n m q p.inventory),
  λ h. rw grown_lem (grown-HasDistinctNames n q p.inventory h),
)

-- Where names are distinct and the quantity is not negative, removing a quantity of one item leaves what is held of it less that
-- quantity, or nothing where no more was held; it changes nothing else that is held and keeps the
-- names distinct.
pub remove_item-held :
    (n : String) (q : ℤ) (now : ℕ) (p : Player)
    → pos 0 ≤ℤ q
    → HasDistinctNames p.inventory
    → ((m : String)
        → held m (remove_item n q now p).0
          ≡ (if n == m then (if leb_ℤ (held m p) q then pos 0 else held m p -ℤ q) else held m p))
      × HasDistinctNames (remove_item n q now p).0.inventory
unfolding get_item
remove_item-held n q now p k h = (
  λ m. rw shrunk_lem (find-shrunk n m q p.inventory k h),
  rw shrunk_lem (shrunk-HasDistinctNames n q p.inventory h),
)

shrink-find :
    (n : String) (q : ℤ) (items : List InventoryItem)
    → (shrink n q items ≡ none) ↔ (find_item n items ≡ none)
unfolding shrink find_item
shrink-find n q [] = (λ _. refl, λ _. refl)
shrink-find n q (item ∷ rest) =
    (λ e. ground (arith, (shrink-find n q rest).0), λ e. ground (arith, (shrink-find n q rest).1))

-- `remove_item` finds nothing exactly when `get_item` does, and then changes nothing.
pub remove_item-none :
    (n : String) (q : ℤ) (now : ℕ) (p : Player)
    → (((remove_item n q now p).1 ≡ none) ↔ (get_item n p ≡ none))
      × (get_item n p ≡ none → (remove_item n q now p).0 ≡ p)
unfolding get_item remove_item
remove_item-none n q now p = (
  (
    λ e. (shrink-find n q p.inventory).0 (ground arith),
    λ e. ground (arith, (shrink-find n q p.inventory).1 e),
  ),
  λ e. ground (arith, (shrink-find n q p.inventory).1 e),
)
