-- ===== src/DmEngine/Story.antt =====
-- What services/dm_engine.py keeps of the story: the tension, the moment of an image and of a summary,
-- the context for the model, and the choice of the model.
use Prim.Native.Char.{code}
use mai_bot_trpg_plugin.Prelude.{
  ℕ, suc, ◌+◌, ◌-◌, String, Bool, true, false, not, ◌&&◌, ◌||◌, Option, none, some, List, [], ◌∷◌,
  ◌++◌, length, take, last, nat_beq, leb, ltb, string_eq, ◌==◌, if◌then◌else◌,
}
use Prim.Native.Nat.{min}
use mai_bot_trpg_plugin.Prelude.Dict.{Dict, lookup}
use mai_bot_trpg_plugin.Prelude.Chars.{lower, ◌+++◌}
use mai_bot_trpg_plugin.Session.Defs.{TrpgSession}
use mai_bot_trpg_plugin.DmEngine.Changes.{is_filled}

-- `s.startswith(p)`, and `p in s`
unfoldable pub starts_with : String → String → Bool
starts_with String.[] s = true
starts_with (String.◌∷◌ c p) String.[] = false
starts_with (String.◌∷◌ c p) (String.◌∷◌ d s) = nat_beq (code c) (code d) && starts_with p s

unfoldable pub occurs : String → String → Bool
unfolding starts_with
occurs p String.[] = starts_with p String.[]
occurs p (String.◌∷◌ c s) = starts_with p (String.◌∷◌ c s) || occurs p s

-- `sum(1 for kw in keywords if kw in text)`
unfoldable pub count_keywords : List String → String → ℕ
unfolding occurs
count_keywords [] text = 0
count_keywords (kw ∷ kws) text =
    let rest = count_keywords kws text in if occurs kw text then suc rest else rest

abbrev pub climax_keywords : List String
climax_keywords =
    "致命一击" ∷ "最后一击" ∷ "倒下" ∷ "死亡" ∷ "击败" ∷ "胜利" ∷ "战斗结束" ∷ "真相" ∷ "揭露" ∷ "发现" ∷ "震惊" ∷ "原来" ∷ "终于"
    ∷ "秘密" ∷ "突然" ∷ "意外" ∷ "惊讶" ∷ "不可思议" ∷ "转折" ∷ "感动" ∷ "泪水" ∷ "拥抱" ∷ "告别" ∷ "重逢" ∷ "危险" ∷ "紧急"
    ∷ "爆炸" ∷ "崩塌" ∷ "逃跑" ∷ []

abbrev pub tension_up_keywords : List String
tension_up_keywords = "危险" ∷ "紧张" ∷ "战斗" ∷ "敌人" ∷ "威胁" ∷ "追逐" ∷ "陷阱" ∷ "黑暗" ∷ []

abbrev pub tension_down_keywords : List String
tension_down_keywords = "安全" ∷ "休息" ∷ "平静" ∷ "解决" ∷ "离开" ∷ "结束" ∷ "放松" ∷ []

-- The entries since an index; where the index lies behind the end, the code's difference is negative
-- and below every bound that it is compared with, as 0 is.
abbrev pub entries_since : ℕ → TrpgSession → ℕ
entries_since index s = length s.history - index

unfoldable pub detect_climax : Bool → String → TrpgSession → Bool
unfolding count_keywords lower
detect_climax climax_image_enabled dm_response s =
    let keyword_count = count_keywords climax_keywords (lower dm_response) in
    if not climax_image_enabled
    then false
    else if ltb (entries_since s.story_context.last_image_history_index s) 5
    then false
    else if leb 2 keyword_count
    then true
    else leb 7 s.story_context.tension_level && leb 1 keyword_count

-- `max(0, min(10, level + (up - down)))`, on natural numbers.
abbrev pub new_tension : ℕ → ℕ → ℕ → ℕ
new_tension level up down = min 10 (level + up - down)

unfoldable pub update_tension_level : String → TrpgSession → TrpgSession
unfolding count_keywords lower
update_tension_level dm_response s =
    let up_count = count_keywords tension_up_keywords (lower dm_response) in
    let down_count = count_keywords tension_down_keywords (lower dm_response) in
    record s {
      story_context = record s.story_context {
        tension_level = new_tension s.story_context.tension_level up_count down_count;
      };
    }

unfoldable pub should_update_summary : TrpgSession → Bool
should_update_summary s = leb 10 (entries_since s.story_context.last_summary_history_index s)

-- `sep.join(texts)`
unfoldable pub join_texts : String → List String → String
join_texts sep [] = ""
join_texts sep (x ∷ []) = x
join_texts sep (x ∷ y ∷ xs) = x +++ sep +++ join_texts sep (y ∷ xs)

unfoldable pub bullets : List String → String
unfolding join_texts
bullets xs = join_texts "\n" (mark xs)
  where
    mark : List String → List String
    mark [] = []
    mark (x ∷ xs) = ("• " +++ x) ∷ mark xs

-- A part of the context, where there is something to show.
abbrev pub part_of : Bool → String → List String
part_of shown part = if shown then part ∷ [] else []

unfoldable pub get_full_context : TrpgSession → String
unfolding bullets join_texts last
get_full_context s =
    let ctx = s.story_context in
    join_texts "\n\n" (
      part_of (not (ctx.story_summary == "")) ("【剧情摘要】\n" +++ ctx.story_summary)
      ++ part_of (is_filled ctx.key_events) ("【近期关键事件】\n" +++ bullets (last 5 ctx.key_events))
      ++ part_of (is_filled ctx.open_threads) ("【未解之谜】\n" +++ bullets (take 3 ctx.open_threads))
      ++ part_of (is_filled ctx.discovered_clues)
          ("【已发现线索】\n" +++ bullets (last 5 ctx.discovered_clues))
      ++ part_of (not (ctx.current_scene == "")) ("【当前场景】" +++ ctx.current_scene))

-- The first model, which raises where there is none.
abbrev pub first_value {κ} : {V : Type κ} → Dict String V → Option V
first_value [] = none
first_value ((key, v) ∷ models) = some v

abbrev pub or_else {κ} : {V : Type κ} → Option V → Option V → Option V
or_else (some v) other = some v
or_else none other = other

unfoldable pub first_known {κ} : {V : Type κ} → Dict String V → List String → Option V
unfolding lookup
first_known models [] = first_value models
first_known models (key ∷ keys_) = or_else (lookup key models) (first_known models keys_)

-- An empty or missing preferred key is none.
unfoldable pub select_model_config {κ} :
    {V : Type κ} → Dict String V → String → List String → Option V
unfolding lookup first_known
select_model_config models preferred_key fallback_keys =
    if preferred_key == ""
    then first_known models fallback_keys
    else or_else (lookup preferred_key models) (first_known models fallback_keys)
