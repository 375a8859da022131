-- ===== src/Handlers/Retries.antt =====
-- The attempts to get a response from the language model, in components/handlers.py, with the fallback of
-- services/dm_engine.py.
use text.Mathlib.TextLemmas.{cons-append, nil-append}
use mai_bot_trpg_plugin.Prelude.{
  ℕ, zero, suc, ◌+◌, ◌≤◌, ◌<◌, String, ◌≡◌, refl, ◌∙◌, ap, Bool, true, false, not, ◌&&◌, Option,
  none, some, [], ◌∷◌, arith, ◌⊎◌, inl, inr, ltb, string_eq, ◌==◌, Bool-cases, if_keeps,
}
use mai_bot_trpg_plugin.Prelude.Chars.{◌+++◌, cons_filled}
use mai_bot_trpg_plugin.Player.Defs.{Player}
use mai_bot_trpg_plugin.Dice.Roll.{text_length}
use mai_bot_trpg_plugin.Session.Defs.{TrpgSession}
use mai_bot_trpg_plugin.Storage.Defs.{Storage}
use mai_bot_trpg_plugin.DmEngine.Reply.{
  LlmApi, EngineSettings, ask_model, strip, hints_of, with_hints, format_response, answered,
  get_fallback_response, generate_dm_response,
}
use mai_bot_trpg_plugin.Handlers.Response.{
  Services, ResponseSettings, failed, usable, first_answer, id_of, use_response,
  generate_and_send_dm_response,
}

module _ (answer : ℕ → String) where
  first_answer-none :
      (attempt left : ℕ)
      → ((k : ℕ) → attempt ≤ k → k < attempt + left → usable (answer k) ≡ false)
      → first_answer answer attempt left ≡ none
  unfolding first_answer
  first_answer-none attempt zero h = refl
  first_answer-none attempt (suc left) h =
      rw (h attempt (omega arith) (omega arith))
        (first_answer-none (suc attempt) left (λ k lo hi. h k (omega arith) (omega arith)))

  first_answer-some :
      (attempt left k : ℕ)
      → attempt ≤ k
      → k < attempt + left
      → ((j : ℕ) → attempt ≤ j → j < k → usable (answer j) ≡ false)
      → usable (answer k) ≡ true
      → first_answer answer attempt left ≡ some (answer k)
  unfolding first_answer
  first_answer-some attempt zero k lo hi h e = absurd (omega arith)
  first_answer-some attempt (suc left) k lo hi h e = elim (here_or_later attempt k lo) [
    | inl here ↦
        let used : usable (answer attempt) ≡ true = ap (λ n. usable (answer n)) here ∙ e in
        rw used (ap (λ n. some (answer n)) here)
    | inr later ↦ rw (h attempt (omega arith) later) (
        first_answer-some (suc attempt) left k (omega arith) (omega arith)
          (λ j l r. h j (omega arith) r) e)
  ]
    where
      here_or_later : (a k : ℕ) → a ≤ k → (a ≡ k) ⊎ (a < k)
      here_or_later a k h = ground arith

usable-append : (p t : String) → (p == "") ≡ false → usable (p +++ t) ≡ true
unfolding usable
usable-append String.[] t h = absurd (cc h)
usable-append (String.◌∷◌ c s) t h = rw (cons-append c s t, cons_filled c (s +++ t)) refl

usable-with_hints :
    (hints response : String)
    → usable (with_hints hints response) ≡ not (response == "" && hints == "")
unfolding with_hints usable
usable-with_hints hints String.[] = elim (Bool-cases (hints == "")) [
  | inl bare ↦ rw bare refl
  | inr more ↦
      rw more (ap usable (nil-append ("\n\n💡 " +++ hints)) ∙ usable-append "\n\n💡 " hints refl)
]
usable-with_hints hints (String.◌∷◌ c s) = rw (cons_filled c s) (elim (Bool-cases (hints == "")) [
  | inl bare ↦ rw (bare, cons_filled c s) refl
  | inr more ↦ rw more (usable-append (String.◌∷◌ c s) ("\n\n💡 " +++ hints) (cons_filled c s))
])

usable-format_response :
    (settings : EngineSettings) (s : TrpgSession) (response : String)
    → usable (format_response settings s response)
      ≡ not (response == "" && hints_of settings s == "")
unfolding format_response
usable-format_response settings s String.[] = usable-with_hints (hints_of settings s) ""
usable-format_response settings s (String.◌∷◌ c t) =
    if_keeps (λ r. usable r ≡ not (String.◌∷◌ c t == "" && hints_of settings s == ""))
      (ltb (text_length (String.◌∷◌ c t)) 200)
      (λ _. usable-with_hints (hints_of settings s) (String.◌∷◌ c t))
      (λ _. unfold usable in rw (cons_filled c t) refl)

-- The response shows nothing: there is white space only, and no hint to go with it.
abbrev pub is_blank : EngineSettings → TrpgSession → String → Bool
is_blank settings s response = strip response == "" && hints_of settings s == ""

-- The model gave such a response.
abbrev pub IsBlankAt : LlmApi → EngineSettings → TrpgSession → ℕ → Type 0
IsBlankAt api settings s k =
    (r : String) × (ask_model api settings k ≡ some r) × (is_blank settings s r ≡ true)

usable-get_fallback_response : (message : String) → usable (get_fallback_response message) ≡ true
unfolding get_fallback_response
usable-get_fallback_response message = usable-append "你尝试" _ refl

module _ (api : LlmApi) (settings : EngineSettings) (s : TrpgSession) (message : String) where
  answer-some :
      (k : ℕ) (r : String)
      → ask_model api settings k ≡ some r
      → generate_dm_response api settings s message k ≡ format_response settings s (strip r)
  unfolding generate_dm_response
  answer-some k r e = rw e (unfold answered in refl)

  answer-none :
      (k : ℕ)
      → ask_model api settings k ≡ none
      → generate_dm_response api settings s message k ≡ get_fallback_response message
  unfolding generate_dm_response
  answer-none k e = rw e (unfold answered in refl)

  blank_unusable :
      (k : ℕ)
      → IsBlankAt api settings s k
      → usable (generate_dm_response api settings s message k) ≡ false
  blank_unusable k (r, e, blank) =
      ap usable (answer-some k r e) ∙ usable-format_response settings s (strip r) ∙ ap not blank

  -- The attempts end at the first response that shows something.
  first_shown :
      (k retries : ℕ) (response : String)
      → k < retries
      → ((j : ℕ) → j < k → IsBlankAt api settings s j)
      → generate_dm_response api settings s message k ≡ response
      → usable response ≡ true
      → first_answer (generate_dm_response api settings s message) 0 retries ≡ some response
  first_shown k retries response hi blanks same shown =
      first_answer-some (generate_dm_response api settings s message) 0 retries k (omega arith)
        (omega arith) (λ j lo lt. blank_unusable j (blanks j lt)) (ap usable same ∙ shown)
      ∙ ap some same

-- The attempts go on, up to the set number, while the model gives white space and there is no hint to
-- go with it. Where every attempt does, the storage stays as it is and the failure is told. The first
-- other attempt is the last one: where the host gives no model, raises an exception, or has no success
-- or an empty text, the fallback text is used as the response, and else the formatted text of the
-- model.
pub generate_and_send_dm_response-attempts :
    (services : Services) (cfg : ResponseSettings) (stream_id : String) (now : ℕ) (s : TrpgSession)
    (message : String) (player : Option Player) (st : Storage)
    → let run = generate_and_send_dm_response services cfg stream_id now s message player st in
      let used = λ (response : String).
        use_response services cfg stream_id
          (λ clean. clean)
          (id_of player)
          now
          s
          (some response)
          st in
      (((k : ℕ) → k < cfg.max_retries → IsBlankAt services.llm cfg.engine s k)
        → run ≡ (st, failed ∷ []))
      × ((k : ℕ)
          → k < cfg.max_retries
          → ((j : ℕ) → j < k → IsBlankAt services.llm cfg.engine s j)
          → (ask_model services.llm cfg.engine k ≡ none
              → run ≡ used (get_fallback_response message))
            × ((r : String)
                → ask_model services.llm cfg.engine k ≡ some r
                → is_blank cfg.engine s r ≡ false
                → run ≡ used (format_response cfg.engine s (strip r))))
unfolding generate_and_send_dm_response
generate_and_send_dm_response-attempts services cfg stream_id now s message player st =
    let answer = generate_dm_response services.llm cfg.engine s message in
    let skip = blank_unusable services.llm cfg.engine s message in
    let run = λ (o : Option String).
      use_response services cfg stream_id (λ clean. clean) (id_of player) now s o st in
    let ends = first_shown services.llm cfg.engine s message in
    (
      λ h.
          ap run
            (first_answer-none answer 0 cfg.max_retries (λ k lo hi. skip k (h k (omega arith))))
          ∙ unfold use_response in refl,
      λ k hi blanks. (
        λ e. ap run (
            ends k cfg.max_retries (get_fallback_response message) hi blanks
              (answer-none services.llm cfg.engine s message k e)
              (usable-get_fallback_response message)),
        λ r e shown. ap run (
            ends k cfg.max_retries (format_response cfg.engine s (strip r)) hi blanks
              (answer-some services.llm cfg.engine s message k r e)
              (usable-format_response cfg.engine s (strip r) ∙ ap not shown)),
      ),
    )
