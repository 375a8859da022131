-- ===== src/Modules/Reload.antt =====
-- What of a module comes back from the file that modules/loader.py writes.
use mai_bot_trpg_plugin.Prelude.{
  String, ◌≡◌, refl, ◌∙◌, ap, Option, none, some, List, [], ◌∷◌, ◌==◌, string_eq, eq_iff,
  Bool-cases, inl, inr, if◌then◌else◌,
}
use mai_bot_trpg_plugin.Prelude.Dict.{lookup, lookup-insert}
use mai_bot_trpg_plugin.Json.{
  Value, obj, ◌>>=◌, as_any, get, field_or, as_list, to_items, of_items, of_items-text,
}
use mai_bot_trpg_plugin.Modules.Base.{ModuleInfo, ModuleBase, module_to_dict, info_to_fields}
use mai_bot_trpg_plugin.Modules.Loader.{
  ModuleLoader, info_from_dict, load_info, module_from_dict, load_custom_module, load_found,
  load_module, save_custom_module,
}

of_items-any : (xs : List Value) → of_items as_any (to_items (λ v. v) xs) ≡ some xs
unfolding of_items to_items
of_items-any [] = refl
of_items-any (x ∷ xs) = rw (of_items-any xs)

info_from_dict-to_fields :
    (stem : String) (i : ModuleInfo) → info_from_dict stem (info_to_fields i) ≡ some i
unfolding info_from_dict info_to_fields field_or get as_list
info_from_dict-to_fields stem i = rw (of_items-text i.tags)

-- The module without what the loader does not read.
abbrev pub stripped : ModuleBase → ModuleBase
stripped m = record m { npcs = []; locations = []; events = [] }

module_from_dict-to_dict :
    (m : ModuleBase) → module_from_dict m.info (module_to_dict m) ≡ some (stripped m)
unfolding module_from_dict module_to_dict field_or get as_list
module_from_dict-to_dict m =
    rw (of_items-text m.lore) (
      rw (of_items-text m.plot_hooks) (rw (of_items-any m.key_items) (rw (of_items-any m.endings))))

load_info-to_dict :
    (stem : String) (m : ModuleBase) → load_info stem (module_to_dict m) ≡ some m.info
unfolding load_info module_to_dict field_or get
load_info-to_dict stem m = info_from_dict-to_fields stem m.info

load_custom_module-to_dict :
    (stem : String) (m : ModuleBase)
    → load_custom_module stem (some (obj (module_to_dict m))) ≡ some (stripped m)
unfolding load_custom_module
load_custom_module-to_dict stem m =
    ap (λ (o : Option ModuleInfo). o >>= λ i. module_from_dict i (module_to_dict m))
      (load_info-to_dict stem m)
    ∙ module_from_dict-to_dict m

-- A custom module that is saved is found again under its id, where no preset has that id: with every
-- field as it was but the NPCs, the locations and the events, which are empty. Every other id finds
-- what it found before.
pub load_module-save_custom_module :
    (m : ModuleBase) (loader : ModuleLoader)
    → lookup m.info.id loader.presets ≡ none
    → (id : String)
    → load_module id (save_custom_module m loader).0 ≡ (
        if m.info.id == id
        then some (record m { npcs = []; locations = []; events = [] })
        else load_module id loader)
unfolding load_module save_custom_module
load_module-save_custom_module m loader free id = elim (Bool-cases (m.info.id == id)) [
  | inl same ↦
      let e : m.info.id ≡ id = (eq_iff m.info.id id).0 same in
      rw (lookup-insert, same, ← e, free)
        (unfold load_found in load_custom_module-to_dict m.info.id m)
  | inr other ↦ rw (lookup-insert, other)
]
