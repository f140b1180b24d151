-- ===== src/Streaming/Responses/Spoken.antt =====
-- The text of one event of an upstream, in the answer to it.
use mathlib.Core.List.{append-nil}
use luicode.Base.{
  string_eq, nat_eq, str_eq_iff, ℕ, Bool, true, false, ◌||◌, String, Option, none, some, List, [],
  ◌∷◌, ◌++◌, ◌==◌, if◌then◌else◌, ◌≡◌, inl, inr, refl, ap, sym, subst, ◌∙◌, arith, Bool-cases,
}
use luicode.Base.Dict.{lookup}
use luicode.Base.Json.{Fields, get, text_of, fields_of}
use luicode.Base.Outcome.{raised}
use luicode.Streaming.Contract.{text_content}
use luicode.Streaming.Ledger.{Ledger, stop_message}
use luicode.Streaming.Ledger.Calls.{
  ◌then_emit◌, quiet, stop_text_block, emit_text_delta, ensure_text_block, close_all_blocks,
  has_content_block,
}
use luicode.Streaming.ToolNames.{OpenAiToolNameCodec}
use luicode.Streaming.Responses.{
  ResponsesProviderStream, Fed, nothing, call_done, hidden_done, string_at, is_type, given_text,
  remembered, upstream_failed,
}
use luicode.Streaming.Responses.Feed.{
  feed, finish, add_text, reasoning_delta, tool_delta, item_added, item_done_in, done_state,
  closing_message, add_text_unless_content, responses_stream_failure_from_event,
}
use luicode.Streaming.Responses.Texts.{
  text_content-append, Silent, Nothing, stop_block-Silent, quiet-Silent, close_all_blocks-Silent,
}
use luicode.Streaming.Responses.Said.{
  Speaks, if-Speaks, nothing-Speaks, call_done-Speaks, hidden_done-Speaks, reasoning_delta-Speaks,
  add_text-Speaks, tool_delta-Speaks, spoken, optional, Closes,
}
use luicode.Streaming.Responses.Orderly.{is_final, fails}
use luicode.Streaming.Responses.Conforms.{feed_of, final_type}
use luicode.Streaming.Responses.Whole.{Upstream}

-- The text deltas of an upstream, up to its end.
abbrev pub words_of : String → Fields → List String
words_of t d =
    if t == "response.output_text.delta" then optional (given_text (get "delta" d)) else []

abbrev pub said : Upstream → List String
said [] = []
said ((t, d) ∷ es) = let rest = said es in if is_final t then [] else words_of t d ++ rest

no_words :
    (t x : String) (d : Fields)
    → (t == x) ≡ true
    → (x == "response.output_text.delta") ≡ false
    → words_of t d ≡ []
no_words t x d h k =
    subst (λ y. words_of y d ≡ []) (sym ((str_eq_iff t x).0 h))
      (ap (λ b. if b then optional (given_text (get "delta" d)) else []) k)

closed_with : (l : Ledger) → Closes (text_content (add_text_unless_content l).1)
closed_with l = by_content (has_content_block l)
  where
    by_content :
        (b : Bool)
        → Closes (
            text_content
              (if b
                then quiet l
                else ensure_text_block l
                  then_emit (λ l'. emit_text_delta l' " ")
                  then_emit stop_text_block).1)
    by_content true = inl (quiet-Silent l)
    by_content false =
        let r = ensure_text_block l then_emit (λ l'. emit_text_delta l' " ") in
        inr (
          text_content-append r.1 (stop_text_block r.0).1
          ∙ ap (λ ws. ws ++ text_content (stop_text_block r.0).1) (spoken l " ")
          ∙ ap (λ ws. " " ∷ ws)
              (stop_block-Silent
                (record r.0 { blocks = record r.0.blocks { text_started = false } })
                r.0.blocks.text_index))

append-Closes : (ws xs : List String) → xs ≡ [] → Closes ws → Closes (ws ++ xs)
append-Closes ws xs h c = subst Closes (sym (ap (λ x. ws ++ x) h ∙ append-nil ws)) c

module _ (int_of : String → Option ℕ) (zero : String → Bool) (tokens : String → ℕ)
    (tool_names : OpenAiToolNameCodec) where
  close-Silent :
      (d : Fields) (incomplete : Bool) (l : Ledger)
      → Silent (closing_message int_of zero tokens tool_names d incomplete l)
  unfolding text_content
  close-Silent d incomplete l = refl

  stop_message-Silent : (l : Ledger) → Silent (stop_message l)
  unfolding text_content
  stop_message-Silent l = refl

  finish-Speaks :
      (s : ResponsesProviderStream) (d : Fields) (incomplete : Bool)
      → Speaks Closes (finish int_of zero tokens tool_names s d incomplete)
  unfolding finish
  finish-Speaks s d incomplete =
      let r0 = close_all_blocks s.ledger in
      let r1 = r0 then_emit add_text_unless_content in
      let close = closing_message int_of zero tokens tool_names d incomplete in
      let r2 = r1 then_emit close in
      let text1 =
        text_content-append r0.1 (add_text_unless_content r0.0).1
        ∙ ap (λ ws. ws ++ text_content (add_text_unless_content r0.0).1)
            (close_all_blocks-Silent s.ledger) in
      subst Closes (sym (text_content-append r2.1 (stop_message r2.0).1)) (
        append-Closes (text_content r2.1) (text_content (stop_message r2.0).1)
          (stop_message-Silent r2.0)
          (subst Closes (sym (text_content-append r1.1 (close r1.0).1)) (
            append-Closes (text_content r1.1) (text_content (close r1.0).1)
              (close-Silent d incomplete r1.0) (subst Closes (sym text1) (closed_with r0.0)))))

  item_done-Speaks :
      (s : ResponsesProviderStream) (o : Option Fields)
      → Speaks Nothing (item_done_in int_of zero tokens tool_names s o)
  item_done-Speaks s none = nothing-Speaks s
  item_done-Speaks s (some item) =
      let id = string_at "id" item in
      let st = done_state int_of zero tokens tool_names s id item in
      let hidden =
        remembered (given_text (get "encrypted_content" item)) (lookup id s.encrypted_reasoning) in
      if-Speaks Nothing (is_type "function_call" item) (call_done s id st item)
        (if is_type "reasoning" item then hidden_done s hidden else nothing s)
        (λ _. call_done-Speaks s id st item)
        (λ _.
          if-Speaks Nothing (is_type "reasoning" item) (hidden_done s hidden) (nothing s)
            (λ _. hidden_done-Speaks s hidden) (λ _. nothing-Speaks s))

  said_as :
      (m : Fed) (xs ys : List String)
      → xs ≡ ys
      → Speaks (λ ws. ws ≡ xs) m
      → Speaks (λ ws. ws ≡ ys) m
  said_as m xs ys e h = subst (λ zs. Speaks (λ ws. ws ≡ zs) m) e h

  pub feed-Speaks :
      (s : ResponsesProviderStream) (t : String) (d : Fields)
      → s.completed ≡ false
      → is_final t ≡ false
      → Speaks (λ ws. ws ≡ words_of t d) (feed int_of zero tokens tool_names s t d)
  unfolding feed
  feed-Speaks s t d run more =
      let P = λ (ws : List String). ws ≡ words_of t d in
      let text = given_text (get "delta" d) in
      let item = fields_of (get "item" d) in
      let failed = raised (upstream_failed (responses_stream_failure_from_event zero t d)) in
      let m8 : Fed = if fails t then failed else nothing s in
      let m7 : Fed =
        if is_final t
        then finish int_of zero tokens tool_names s d (t == "response.incomplete")
        else m8 in
      let m6 : Fed =
        if t == "response.output_item.done"
        then item_done_in int_of zero tokens tool_names s item
        else m7 in
      let m5 : Fed = if t == "response.function_call_arguments.delta" then tool_delta s d else m6 in
      let m4 : Fed = if t == "response.output_text.delta" then add_text s text else m5 in
      let r1 = t == "response.reasoning_text.delta" in
      let r2 = t == "response.reasoning_summary_text.delta" in
      let m3 : Fed = if r1 || r2 then reasoning_delta s text else m4 in
      let m2 : Fed =
        if t == "response.output_item.added"
        then item_added int_of zero tokens tool_names s d
        else m3 in
      if-Speaks P s.completed (nothing s) m2 (λ on. absurd (ground (arith, on, run)))
        (λ _.
          if-Speaks P (t == "response.output_item.added")
            (item_added int_of zero tokens tool_names s d) m3
            (λ on.
              said_as (item_added int_of zero tokens tool_names s d) [] (words_of t d)
                (sym (no_words t "response.output_item.added" d on refl)) (nothing-Speaks s))
            (λ _.
              if-Speaks P (r1 || r2) (reasoning_delta s text) m4
                (λ on.
                  said_as (reasoning_delta s text) [] (words_of t d) (sym (reasons t d on))
                    (reasoning_delta-Speaks s text))
                (λ _.
                  if-Speaks P (t == "response.output_text.delta") (add_text s text) m5
                    (λ on.
                      said_as (add_text s text) (optional text) (words_of t d)
                        (sym (ap (λ b. if b then optional text else []) on))
                        (add_text-Speaks s text))
                    (λ off.
                      let silent = sym (ap (λ b. if b then optional text else []) off) in
                      if-Speaks P (t == "response.function_call_arguments.delta") (tool_delta s d)
                        m6
                        (λ _.
                          said_as (tool_delta s d) [] (words_of t d) silent
                            (tool_delta-Speaks s (string_at "item_id" d) (text_of (get "delta" d))))
                        (λ _.
                          if-Speaks P (t == "response.output_item.done")
                            (item_done_in int_of zero tokens tool_names s item) m7
                            (λ _.
                              said_as (item_done_in int_of zero tokens tool_names s item) []
                                (words_of t d) silent (item_done-Speaks s item))
                            (λ _.
                              if-Speaks P (is_final t)
                                (finish int_of zero tokens tool_names s d
                                  (t == "response.incomplete"))
                                m8 (λ on. absurd (ground (arith, on, more)))
                                (λ _.
                                  if-Speaks P (fails t) failed (nothing s) (λ _. tt)
                                    (λ _.
                                      said_as (nothing s) [] (words_of t d) silent
                                        (nothing-Speaks s)))))))))
    where
      reasons :
          (t : String) (d : Fields)
          → (t == "response.reasoning_text.delta" || t == "response.reasoning_summary_text.delta")
            ≡ true
          → words_of t d ≡ []
      reasons t d h = elim (Bool-cases (t == "response.reasoning_text.delta")) [
        | inl on ↦ no_words t "response.reasoning_text.delta" d on refl
        | inr off ↦
            no_words t "response.reasoning_summary_text.delta" d (ground (arith, h, off)) refl
      ]

  pub feed_final-Speaks :
      (s : ResponsesProviderStream) (t : String) (d : Fields)
      → s.completed ≡ false
      → is_final t ≡ true
      → (blank : String → Bool) (empty : blank "" ≡ true)
      → Speaks Closes (feed int_of zero tokens tool_names s t d)
  feed_final-Speaks s t d run h blank empty =
      let f = feed_of blank empty int_of zero tokens tool_names s d run in
      elim (final_type blank empty int_of zero tokens tool_names t h) [
        | inl e ↦
            subst (λ x. Speaks Closes (feed int_of zero tokens tool_names s x d)) (sym e)
              (subst (Speaks Closes) (sym f.0) (finish-Speaks s d false))
        | inr e ↦
            subst (λ x. Speaks Closes (feed int_of zero tokens tool_names s x d)) (sym e)
              (subst (Speaks Closes) (sym f.1) (finish-Speaks s d true))
      ]
