-- ===== src/DmEngine/Changes.antt =====
-- class GameStateChange of services/dm_engine.py, with the helpers that fill it.
use mai_bot_trpg_plugin.Prelude.{String, Bool, ◌||◌, List, [], ◌∷◌, ◌++◌, string_eq}
use mai_bot_trpg_plugin.Prelude.Int.{ℤ, pos, ◌+ℤ◌}
use mai_bot_trpg_plugin.Prelude.Dict.{Dict, lookup_or, insert}
use mai_bot_trpg_plugin.Json.{Value}

-- The world changes that the program writes are texts. Nothing writes the changes of NPCs.
pub record GameStateChange : Type 0 where
  pub hp_changes : Dict String ℤ
  pub mp_changes : Dict String ℤ
  pub attr_changes : Dict String (Dict String ℤ)
  pub item_gains : Dict String (List (String × ℤ))
  pub item_losses : Dict String (List (String × ℤ))
  pub world_changes : Dict String String
  pub npc_changes : Dict String (Dict String Value)

abbrev pub no_changes : GameStateChange
no_changes = record {
  hp_changes = [];
  mp_changes = [];
  attr_changes = [];
  item_gains = [];
  item_losses = [];
  world_changes = [];
  npc_changes = [];
}

-- `bool(d)`
abbrev pub is_filled {ℓ} : {A : Type ℓ} → List A → Bool
is_filled [] = Bool.false
is_filled (x ∷ xs) = Bool.true

unfoldable pub has_changes : GameStateChange → Bool
has_changes c =
    is_filled c.hp_changes
    || is_filled c.mp_changes
    || is_filled c.attr_changes
    || is_filled c.item_gains
    || is_filled c.item_losses
    || is_filled c.world_changes
    || is_filled c.npc_changes

-- `d[uid] = d.get(uid, 0) + delta`
unfoldable pub add_delta : String → ℤ → Dict String ℤ → Dict String ℤ
unfolding lookup_or insert ◌+ℤ◌
add_delta key delta d = insert key (lookup_or key (pos 0) d +ℤ delta) d

unfoldable pub add_hp : String → ℤ → GameStateChange → GameStateChange
unfolding add_delta
add_hp uid delta c = record c { hp_changes = add_delta uid delta c.hp_changes }

unfoldable pub add_mp : String → ℤ → GameStateChange → GameStateChange
unfolding add_delta
add_mp uid delta c = record c { mp_changes = add_delta uid delta c.mp_changes }

unfoldable pub add_attr : String → String → ℤ → GameStateChange → GameStateChange
unfolding add_delta insert lookup_or
add_attr uid std_attr delta c = record c {
  attr_changes =
      insert uid (add_delta std_attr delta (lookup_or uid [] c.attr_changes)) c.attr_changes;
}

-- `d.setdefault(uid, []).append((item_name, qty))`
unfoldable pub append_item :
    String → String → ℤ → Dict String (List (String × ℤ)) → Dict String (List (String × ℤ))
unfolding insert lookup_or
append_item uid item_name qty d = insert uid (lookup_or uid [] d ++ (item_name, qty) ∷ []) d

unfoldable pub add_item_gain : String → String → ℤ → GameStateChange → GameStateChange
unfolding append_item
add_item_gain uid item_name qty c = record c {
  item_gains = append_item uid item_name qty c.item_gains;
}

unfoldable pub add_item_loss : String → String → ℤ → GameStateChange → GameStateChange
unfolding append_item
add_item_loss uid item_name qty c = record c {
  item_losses = append_item uid item_name qty c.item_losses;
}
