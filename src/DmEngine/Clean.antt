-- ===== src/DmEngine/Clean.antt =====
-- `clean_state_tags` of services/dm_engine.py.
use Prim.Native.Char.{code}
use mai_bot_trpg_plugin.Prelude.{String, not, ◌||◌, List, [], ◌∷◌, nat_beq}
use mai_bot_trpg_plugin.Dice.Parse.{is_white, strip_left, strip_right}
use mai_bot_trpg_plugin.DmEngine.Pattern.{
  Pattern, one, then_, at_least_one, exactly, any_case, word, any_word, replace_all,
}
use mai_bot_trpg_plugin.DmEngine.Tags.{tag, spaces, some_spaces, number_pattern, attr_word}

infixr 40 ◌then◌
abbrev ◌then◌ : Pattern → Pattern → Pattern
a then b = then_ a b

-- `uid\s*[:=]\s*[^\s\]]+`
abbrev uid_word : Pattern
uid_word =
    word any_case "uid"
    then spaces
    then one (λ c. exactly ":" c || exactly "=" c)
    then spaces
    then at_least_one (λ c. not (is_white c || exactly "]" c))

-- `\s+[^\]]+`
abbrev some_text : Pattern
some_text = some_spaces then at_least_one (λ c. not (exactly "]" c))

abbrev hp_words : Pattern
hp_words = any_word any_case "HP" ("生命值" ∷ "生命" ∷ [])

abbrev mp_words : Pattern
mp_words = any_word any_case "MP" ("魔力值" ∷ "魔力" ∷ [])

abbrev loss_words : Pattern
loss_words = any_word any_case "失去" ("消耗" ∷ "使用" ∷ [])

-- The bodies of the twelve patterns, in their order.
unfoldable pub clean_bodies : List Pattern
unfolding word any_word
clean_bodies =
    (uid_word then some_spaces then hp_words then spaces then number_pattern)
    ∷ (uid_word then some_spaces then mp_words then spaces then number_pattern)
    ∷ (uid_word then some_spaces then word any_case "获得" then some_text)
    ∷ (uid_word then some_spaces then loss_words then some_text)
    ∷ (uid_word then spaces then attr_word then spaces then number_pattern)
    ∷ (hp_words then spaces then number_pattern)
    ∷ (mp_words then spaces then number_pattern)
    ∷ (word any_case "获得" then some_text)
    ∷ (loss_words then some_text)
    ∷ (attr_word then spaces then number_pattern)
    ∷ (any_word any_case "移动到" ("进入" ∷ "来到" ∷ "到达" ∷ []) then some_text)
    ∷ (word any_case "时间" then some_text)
    ∷ []

unfoldable pub remove_tags : List Pattern → String → String
unfolding replace_all tag
remove_tags [] text = text
remove_tags (body ∷ bodies) text = remove_tags bodies (replace_all (tag body) "" text 0)

abbrev pub newline : Pattern
newline = one (λ c. nat_beq (code c) 10)

abbrev pub space : Pattern
space = one (λ c. nat_beq (code c) 32)

-- The last steps: blank lines and runs of spaces.
unfoldable pub tidy : String → String
unfolding replace_all strip_left strip_right
tidy text =
    let lines = replace_all (newline then spaces then newline) "\n\n" text 0 in
    strip_right
      (strip_left (replace_all (space then at_least_one (λ c. nat_beq (code c) 32)) " " lines 0))

unfoldable pub clean_state_tags : String → String
unfolding clean_bodies remove_tags tidy
clean_state_tags response = tidy (remove_tags clean_bodies response)
