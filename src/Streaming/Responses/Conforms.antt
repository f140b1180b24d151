-- ===== src/Streaming/Responses/Conforms.antt =====
-- A whole response of an orderly upstream, as the client sees it.
use luicode.Base.{
  string_eq, nat_eq, str_eq_iff, ℕ, Bool, true, false, not, ◌&&◌, ◌||◌, String, Option, ◌==◌,
  if◌then◌else◌, ◌≡◌, sym, subst, arith, inl, inr, ◌⊎◌,
}
use luicode.Base.Dict.{lookup}
use luicode.Base.Json.{Fields, get, text_of, fields_of}
use luicode.Base.Outcome.{raised}
use luicode.Streaming.Contract.{Contract}
use luicode.Streaming.ToolNames.{OpenAiToolNameCodec}
use luicode.Streaming.Responses.{
  ResponsesProviderStream, Fed, nothing, given_text, string_at, upstream_failed,
}
use luicode.Streaming.Responses.Feed.{
  feed, finish, tool_delta, add_text, reasoning_delta, item_added, item_added_in, item_done_in,
  responses_stream_failure_from_event,
}
use luicode.Streaming.Responses.Followed.{Follows, Answers, nothing-Answers, if-Answers, goes_on}
use luicode.Streaming.Responses.Ending.{Ended, finish-Ended}
use luicode.Streaming.Responses.Orderly.{
  orderly, is_final, fails, new_call, open_call, reasoning_delta-Answers, add_text-Answers,
  tool_delta-Answers, item_added-Follows, item_done-Answers,
}

-- The parts of an orderly event.
orderly_parts :
    (s : ResponsesProviderStream) (t : String) (d : Fields)
    → s.completed ≡ false
    → orderly s t d ≡ true
    → ((t == "response.output_item.added") ≡ true → new_call s (fields_of (get "item" d)) ≡ true)
      × ((t == "response.function_call_arguments.delta") ≡ true
          → goes_on (lookup (string_at "item_id" d) s.tools) ≡ true)
      × ((t == "response.output_item.done") ≡ true → open_call s (fields_of (get "item" d)) ≡ true)
      × (fails t ≡ false)
unfolding orderly
orderly_parts s t d run h =
    parts (t == "response.output_item.added") (t == "response.function_call_arguments.delta")
      (t == "response.output_item.done") (fails t) (new_call s (fields_of (get "item" d)))
      (goes_on (lookup (string_at "item_id" d) s.tools)) (open_call s (fields_of (get "item" d)))
      s.completed run h
  where
    parts :
        (a b e f x y z r : Bool)
        → r ≡ false
        → (r || ((not a || x) && (not b || y) && (not e || z) && not f)) ≡ true
        → (a ≡ true → x ≡ true) × (b ≡ true → y ≡ true) × (e ≡ true → z ≡ true) × (f ≡ false)
    parts a b e f x y z r off h = ground (arith, off, h)

module _ (blank : String → Bool) (empty : blank "" ≡ true) (int_of : String → Option ℕ)
    (zero : String → Bool) (tokens : String → ℕ) (tool_names : OpenAiToolNameCodec) where
  pub feed-Answers :
      (s : ResponsesProviderStream) (c : Contract) (t : String) (d : Fields)
      → Follows s c
      → orderly s t d ≡ true
      → is_final t ≡ false
      → Answers blank c (feed int_of zero tokens tool_names s t d)
  unfolding feed
  feed-Answers s c t d v h more =
      let o = orderly_parts s t d v.running h in
      let text = given_text (get "delta" d) in
      let item = fields_of (get "item" d) in
      let failed = raised (upstream_failed (responses_stream_failure_from_event zero t d)) in
      let m8 : Fed = if fails t then failed else nothing s in
      let m7 : Fed =
        if is_final t
        then finish int_of zero tokens tool_names s d (t == "response.incomplete")
        else m8 in
      let m6 : Fed =
        if t == "response.output_item.done"
        then item_done_in int_of zero tokens tool_names s item
        else m7 in
      let m5 : Fed = if t == "response.function_call_arguments.delta" then tool_delta s d else m6 in
      let m4 : Fed = if t == "response.output_text.delta" then add_text s text else m5 in
      let m3 : Fed =
        if t == "response.reasoning_text.delta" || t == "response.reasoning_summary_text.delta"
        then reasoning_delta s text
        else m4 in
      let m2 : Fed =
        if t == "response.output_item.added"
        then item_added int_of zero tokens tool_names s d
        else m3 in
      if-Answers blank c s.completed (nothing s) m2 (λ _. nothing-Answers blank s c v)
        (λ _.
          if-Answers blank c (t == "response.output_item.added")
            (item_added int_of zero tokens tool_names s d) m3
            (λ on.
              nothing-Answers blank (item_added_in int_of zero tokens tool_names s item) c
                (item_added-Follows blank empty int_of zero tokens tool_names s c item v (o.0 on)))
            (λ _.
              if-Answers blank c
                (t == "response.reasoning_text.delta"
                  || t == "response.reasoning_summary_text.delta")
                (reasoning_delta s text) m4 (λ _. reasoning_delta-Answers blank empty s c text v)
                (λ _.
                  if-Answers blank c (t == "response.output_text.delta") (add_text s text) m5
                    (λ _. add_text-Answers blank empty s c text v)
                    (λ _.
                      if-Answers blank c (t == "response.function_call_arguments.delta")
                        (tool_delta s d) m6
                        (λ on.
                          tool_delta-Answers blank empty s c (string_at "item_id" d)
                            (text_of (get "delta" d)) v (o.1 on))
                        (λ _.
                          if-Answers blank c (t == "response.output_item.done")
                            (item_done_in int_of zero tokens tool_names s item) m7
                            (λ on.
                              item_done-Answers blank empty int_of zero tokens tool_names s c item v
                                (o.2 on))
                            (λ _.
                              if-Answers blank c (is_final t)
                                (finish int_of zero tokens tool_names s d
                                  (t == "response.incomplete"))
                                m8 (λ on. absurd (ground (arith, on, more)))
                                (λ _.
                                  if-Answers blank c (fails t) failed (nothing s)
                                    (λ on. absurd (ground (arith, on, o.3)))
                                    (λ _. nothing-Answers blank s c v))))))))

  pub final_type :
      (t : String) → is_final t ≡ true → (t ≡ "response.completed") ⊎ (t ≡ "response.incomplete")
  final_type t h =
      ground (arith, h, str_eq_iff t "response.completed", str_eq_iff t "response.incomplete")

  pub feed_of :
      (s : ResponsesProviderStream) (d : Fields)
      → s.completed ≡ false
      → (feed int_of zero tokens tool_names s "response.completed" d
          ≡ finish int_of zero tokens tool_names s d false)
        × (feed int_of zero tokens tool_names s "response.incomplete" d
            ≡ finish int_of zero tokens tool_names s d true)
  unfolding feed
  feed_of s d run = (rw run, rw run)

  -- The event that ends a response.
  pub feed-Ended :
      (s : ResponsesProviderStream) (c : Contract) (t : String) (d : Fields)
      → Follows s c
      → is_final t ≡ true
      → Ended blank c (feed int_of zero tokens tool_names s t d)
  feed-Ended s c t d v h =
      let fed = feed_of s d v.running in
      let ends = λ (incomplete : Bool).
        finish-Ended blank empty int_of zero tokens tool_names s c d incomplete v in
      elim (final_type t h) [
        | inl e ↦
            subst (λ x. Ended blank c (feed int_of zero tokens tool_names s x d)) (sym e)
              (subst (Ended blank c) (sym fed.0) (ends false))
        | inr e ↦
            subst (λ x. Ended blank c (feed int_of zero tokens tool_names s x d)) (sym e)
              (subst (Ended blank c) (sym fed.1) (ends true))
      ]
