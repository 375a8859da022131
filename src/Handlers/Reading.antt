-- ===== src/Handlers/Reading.antt =====
-- How components/handlers.py reads a message: role play, the need of a response, and the hints that an
-- action gets.
use mai_bot_trpg_plugin.Prelude.{
  ℕ, String, Bool, false, ◌&&◌, ◌||◌, Option, none, some, List, [], ◌∷◌, ltb, string_eq, ◌==◌,
  if◌then◌else◌,
}
use mai_bot_trpg_plugin.Prelude.Dict.{keys}
use mai_bot_trpg_plugin.Prelude.Chars.{lower, ◌+++◌, take_text}
use mai_bot_trpg_plugin.Session.Defs.{TrpgSession}
use mai_bot_trpg_plugin.Dice.Parse.{strip_left, strip_right}
use mai_bot_trpg_plugin.Dice.Roll.{text_length}
use mai_bot_trpg_plugin.DmEngine.Story.{starts_with, occurs}

unfoldable pub ends_with : String → String → Bool
ends_with p String.[] = p == ""
ends_with p (String.◌∷◌ c s) = p == String.◌∷◌ c s || ends_with p s

abbrev pub is_enclosed : String → String → String → Bool
is_enclosed left right text = starts_with left text && ends_with right text

unfoldable pub is_roleplay_message : String → Bool
unfolding starts_with ends_with occurs
is_roleplay_message text =
    is_enclosed "*" "*" text
    || is_enclosed "（" "）" text
    || is_enclosed "(" ")" text
    || starts_with "【" text && occurs "】" text
    || is_enclosed "\"" "\"" text
    || is_enclosed "“" "”" text

-- `any(kw in text for kw in keywords)`
unfoldable pub any_occurs : List String → String → Bool
unfolding occurs
any_occurs [] text = false
any_occurs (kw ∷ kws) text = occurs kw text || any_occurs kws text

abbrev pub action_keywords : List String
action_keywords =
    "我要" ∷ "我想" ∷ "我尝试" ∷ "我试着" ∷ "我决定" ∷ "攻击" ∷ "使用" ∷ "查看" ∷ "检查" ∷ "调查" ∷ "搜索" ∷ "走向" ∷ "前往"
    ∷ "进入" ∷ "离开" ∷ "移动" ∷ "说" ∷ "问" ∷ "告诉" ∷ "询问" ∷ "回答" ∷ "拿" ∷ "捡" ∷ "打开" ∷ "关闭" ∷ "推" ∷ "拉"
    ∷ "躲" ∷ "藏" ∷ "逃跑" ∷ "战斗" ∷ "施法" ∷ []

unfoldable pub should_dm_respond : String → TrpgSession → Bool
unfolding any_occurs lower keys
should_dm_respond text s =
    any_occurs action_keywords (lower text)
    || any_occurs (keys s.npcs) text
    || ltb 20 (text_length text)

-- The first entry of a table one of whose keywords occurs in a text.
unfoldable pub first_match {κ} : {V : Type κ} → List (List String × V) → String → Option V
unfolding any_occurs
first_match [] text = none
first_match ((keywords, v) ∷ rest) text =
    let later = first_match rest text in if any_occurs keywords text then some v else later

abbrev pub check_mappings : List (List String × String)
check_mappings =
    ("搜索" ∷ "调查" ∷ "检查" ∷ "查看" ∷ "观察" ∷ "寻找" ∷ [], "感知检定")
    ∷ ("攻击" ∷ "战斗" ∷ "打" ∷ "砍" ∷ "刺" ∷ [], "攻击检定")
    ∷ ("说服" ∷ "劝说" ∷ "欺骗" ∷ "威胁" ∷ [], "魅力检定")
    ∷ ("跳" ∷ "爬" ∷ "翻" ∷ "躲" ∷ "闪" ∷ [], "敏捷检定")
    ∷ ("推" ∷ "拉" ∷ "举" ∷ "砸" ∷ "破" ∷ [], "力量检定")
    ∷ ("回忆" ∷ "分析" ∷ "推理" ∷ "识破" ∷ [], "智力检定")
    ∷ ("潜行" ∷ "隐藏" ∷ "躲藏" ∷ "偷偷" ∷ [], "隐匿检定")
    ∷ ("开锁" ∷ "撬" ∷ "拆" ∷ "修理" ∷ [], "巧手检定")
    ∷ []

unfoldable pub hint_of : Option String → String
hint_of none = ""
hint_of (some check_name) = "\n🎲 需要" +++ check_name +++ " `/r d20`"

unfoldable pub get_check_hint : String → String
unfolding first_match lower hint_of
get_check_hint action = hint_of (first_match check_mappings (lower action))

abbrev pub check_actions : List (List String × (String × String))
check_actions =
    ("搜索" ∷ "调查" ∷ "检查" ∷ "查看" ∷ "观察" ∷ "寻找" ∷ "翻找" ∷ [], ("🔍", "感知检定"))
    ∷ ("攻击" ∷ "战斗" ∷ "打" ∷ "砍" ∷ "刺" ∷ [], ("⚔\u{fe0f}", "攻击检定"))
    ∷ ("说服" ∷ "劝说" ∷ "欺骗" ∷ "撒谎" ∷ "威胁" ∷ "恐吓" ∷ [], ("💬", "魅力检定"))
    ∷ ("跳" ∷ "爬" ∷ "翻" ∷ "躲" ∷ "闪" ∷ "滚" ∷ [], ("🤸", "敏捷检定"))
    ∷ ("推" ∷ "拉" ∷ "举" ∷ "砸" ∷ "破门" ∷ "撞" ∷ [], ("💪", "力量检定"))
    ∷ ("回忆" ∷ "分析" ∷ "推理" ∷ "识破" ∷ "辨认" ∷ [], ("🧠", "智力检定"))
    ∷ ("潜行" ∷ "隐藏" ∷ "躲藏" ∷ "偷偷" ∷ "悄悄" ∷ [], ("🫥", "隐匿检定"))
    ∷ ("开锁" ∷ "撬" ∷ "拆" ∷ "修理" ∷ "解除" ∷ [], ("🔧", "巧手检定"))
    ∷ []

-- The key `("使用")` of the code is a text and no tuple, so that its characters are the keywords.
abbrev pub simple_actions : List (List String × String)
simple_actions =
    ("打开" ∷ "开门" ∷ [], "🚪")
    ∷ ("拿" ∷ "捡" ∷ "获取" ∷ [], "🤲")
    ∷ ("走向" ∷ "前往" ∷ "进入" ∷ "离开" ∷ "移动" ∷ [], "🚶")
    ∷ ("使" ∷ "用" ∷ [], "✨")
    ∷ ("逃跑" ∷ "逃" ∷ [], "🏃")
    ∷ ("施法" ∷ "魔法" ∷ [], "🪄")
    ∷ ("说" ∷ "问" ∷ "告诉" ∷ "询问" ∷ "回答" ∷ "对话" ∷ [], "💬")
    ∷ []

-- `text[1:-1]`
unfoldable pub drop_end : String → String
drop_end String.[] = String.[]
drop_end (String.◌∷◌ c s) =
    let rest = drop_end s in if s == "" then String.[] else String.◌∷◌ c rest

unfoldable pub inner_text : String → String
unfolding drop_end
inner_text String.[] = String.[]
inner_text (String.◌∷◌ c s) = drop_end s

-- `text[:n] + ("..." if len(text) > n else "")`
unfoldable pub shortened : ℕ → String → String
unfolding take_text
shortened n text = take_text n text +++ (if ltb n (text_length text) then "..." else "")

-- The answer to an action in brackets.
unfoldable pub enclosed_ack : String → String → String → String → String
unfolding inner_text strip_left strip_right get_check_hint
enclosed_ack left right character_name text =
    let action = strip_right (strip_left (inner_text text)) in
    "🎭 " +++ character_name +++ ": " +++ left +++ action +++ right +++ get_check_hint action

unfoldable pub simple_ack : Option String → String → String → String
unfolding shortened
simple_ack none character_name text = "🎲 " +++ character_name +++ ": " +++ shortened 30 text
simple_ack (some emoji) character_name text =
    emoji +++ " " +++ character_name +++ ": " +++ shortened 30 text

unfoldable pub plain_ack : Option (String × String) → String → String → String
unfolding shortened simple_ack first_match lower
plain_ack none character_name text =
    simple_ack (first_match simple_actions (lower text)) character_name text
plain_ack (some (emoji, check_name)) character_name text =
    emoji
    +++ " "
    +++ character_name
    +++ " 尝试: "
    +++ shortened 25 text
    +++ "\n🎲 需要"
    +++ check_name
    +++ " `/r d20`"

unfoldable pub generate_action_acknowledgment : String → String → String
unfolding starts_with ends_with enclosed_ack plain_ack first_match lower
generate_action_acknowledgment text character_name =
    if is_enclosed "*" "*" text
    then enclosed_ack "*" "*" character_name text
    else if is_enclosed "（" "）" text
    then enclosed_ack "（" "）" character_name text
    else if is_enclosed "(" ")" text
    then enclosed_ack "(" ")" character_name text
    else plain_ack (first_match check_actions (lower text)) character_name text
