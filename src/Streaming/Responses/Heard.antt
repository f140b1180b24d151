-- ===== src/Streaming/Responses/Heard.antt =====
-- The client of an orderly upstream reads what the upstream said.
use mathlib.Core.List.{append_assoc, append-nil}
use luicode.Base.{
  refl, string_eq, nat_eq, ℕ, Bool, true, false, String, Option, List, [], ◌∷◌, ◌++◌, if◌then◌else◌,
  ◌≡◌, ◌⊎◌, inl, inr, ap, sym, subst, ◌∙◌, arith, Bool-cases,
}
use luicode.Base.Json.{Fields}
use luicode.Base.Outcome.{ok, ◌>>=◌, Returns, Returns-bind}
use luicode.Streaming.Events.{SseEvent}
use luicode.Streaming.Contract.{Contract, text_content, unread}
use luicode.Streaming.ToolNames.{OpenAiToolNameCodec}
use luicode.Streaming.Responses.{ResponsesProviderStream, Fed, new_stream, start}
use luicode.Streaming.Responses.Feed.{feed}
use luicode.Streaming.Responses.Texts.{text_content-append}
use luicode.Streaming.Responses.Said.{Speaks, Closes}
use luicode.Streaming.Responses.Followed.{Follows}
use luicode.Streaming.Responses.Orderly.{is_final}
use luicode.Streaming.Responses.Conforms.{feed-Answers, feed-Ended}
use luicode.Streaming.Responses.Whole.{
  Upstream, any_final, feed_all, feed_all-over, all_orderly, all_orderly-head, after_feed,
  started-Follows,
}
use luicode.Streaming.Responses.Spoken.{words_of, said, feed-Speaks, feed_final-Speaks}

module _ (int_of : String → Option ℕ) (zero : String → Bool) (tokens : String → ℕ)
    (tool_names : OpenAiToolNameCodec) where
  -- The text is what the upstream said, or that and a blank.
  abbrev pub Heard : Upstream → List String → Type 0
  Heard es ws = (ws ≡ said es) ⊎ (ws ≡ said es ++ " " ∷ [])

  final-Heard :
      (t : String) (d : Fields) (es : Upstream) (ws : List String)
      → is_final t ≡ true
      → Closes ws
      → Heard ((t, d) ∷ es) ws
  final-Heard t d es ws final c =
      subst
        (λ b.
          (ws ≡ (if b then [] else words_of t d ++ said es))
          ⊎ (ws ≡ (if b then [] else words_of t d ++ said es) ++ " " ∷ []))
        (sym final) c

  append-Heard :
      (t : String) (d : Fields) (es : Upstream) (ws xs : List String)
      → is_final t ≡ false
      → ws ≡ words_of t d
      → Heard es xs
      → Heard ((t, d) ∷ es) (ws ++ xs)
  append-Heard t d es ws xs more w h =
      subst
        (λ b.
          (ws ++ xs ≡ (if b then [] else words_of t d ++ said es))
          ⊎ (ws ++ xs ≡ (if b then [] else words_of t d ++ said es) ++ " " ∷ []))
        (sym more)
        (elim h [
          | inl e ↦ inl (ap (λ y. y ++ xs) w ∙ ap (λ y. words_of t d ++ y) e)
          | inr e ↦ inr (
              ap (λ y. y ++ xs) w
              ∙ ap (λ y. words_of t d ++ y) e
              ∙ sym (append_assoc (words_of t d) (said es) (" " ∷ [])))
        ])

  module _ (blank : String → Bool) (empty : blank "" ≡ true) where
    feed_all-Heard :
        (es : Upstream) (s : ResponsesProviderStream) (c : Contract)
        → Follows s c
        → all_orderly int_of zero tokens tool_names s es ≡ true
        → any_final es ≡ true
        → Returns (feed_all int_of zero tokens tool_names s es) (λ r. Heard es (text_content r.1))
    unfolding feed_all
    feed_all-Heard [] s c v h last = absurd (ground (arith, last))
    feed_all-Heard ((t, d) ∷ es) s c v h last =
        let m = feed int_of zero tokens tool_names s t d in
        let all = feed_all int_of zero tokens tool_names in
        let rest_of : ResponsesProviderStream × List SseEvent → Fed =
          λ r. all r.0 es >>= (λ r'. ok (r'.0, r.1 ++ r'.1)) in
        let o = all_orderly-head int_of zero tokens tool_names blank empty s t d es h in
        elim (Bool-cases (is_final t)) [
          | inl final ↦
              let e = feed-Ended blank empty int_of zero tokens tool_names s c t d v final in
              let r = e.result in
              let rest : ResponsesProviderStream × List SseEvent → Fed =
                λ r'. ok (r'.0, r.1 ++ r'.1) in
              subst (λ x. Returns (x >>= rest_of) (λ y. Heard ((t, d) ∷ es) (text_content y.1)))
                (sym e.returned)
                (subst (λ x. Returns (x >>= rest) (λ y. Heard ((t, d) ∷ es) (text_content y.1)))
                  (sym (feed_all-over int_of zero tokens tool_names r.0 es e.over))
                  (final-Heard t d es (text_content (r.1 ++ [])) final (
                    subst (λ x. Closes (text_content x)) (sym (append-nil r.1))
                      (subst (Speaks Closes) e.returned (
                        feed_final-Speaks int_of zero tokens tool_names s t d v.running final blank
                          empty)))))
          | inr more ↦
              let a = feed-Answers blank empty int_of zero tokens tool_names s c t d v o.0 more in
              let r = a.result in
              let k : ResponsesProviderStream × List SseEvent → Fed =
                λ r'. ok (r'.0, r.1 ++ r'.1) in
              let words =
                subst (Speaks (λ ws. ws ≡ words_of t d)) a.returned
                  (feed-Speaks int_of zero tokens tool_names s t d v.running more) in
              subst (λ x. Returns (x >>= rest_of) (λ y. Heard ((t, d) ∷ es) (text_content y.1)))
                (sym a.returned)
                (Returns-bind (all r.0 es) k (λ y. Heard es (text_content y.1))
                  (λ y. Heard ((t, d) ∷ es) (text_content y.1))
                  (feed_all-Heard es r.0 a.after a.follows
                    (ap
                        (λ x.
                          after_feed int_of zero tokens tool_names x
                            (λ s'. all_orderly int_of zero tokens tool_names s' es))
                        (sym a.returned)
                      ∙ o.1)
                    (ground (arith, last, more)))
                  (λ r' w.
                    subst (Heard ((t, d) ∷ es)) (sym (text_content-append r.1 r'.1))
                      (append-Heard t d es (text_content r.1) (text_content r'.1) more words w)))
        ]

  -- No text is lost, made up or reordered: whatever events an upstream sends, one of them a final
  -- one, if they are orderly (it does not add a call under an id that is taken, says nothing of a call
  -- that is done, and does not fail), the stream answers all of them without raising, and the text that the client reads is
  -- that of the upstream's text deltas before the end, in their order, with at most one blank after
  -- them.
  pub text_content-said :
      (message_id model : String) (input_tokens : ℕ) (es : Upstream)
      → all_orderly int_of zero tokens tool_names
          (start (new_stream message_id model input_tokens)).0
          es
        ≡ true
      → any_final es ≡ true
      → Returns
          (feed_all int_of zero tokens tool_names
            (start (new_stream message_id model input_tokens)).0
            es)
          (λ r. Heard es (text_content r.1))
  text_content-said message_id model input_tokens es h last =
      feed_all-Heard (λ s. true) refl es (start (new_stream message_id model input_tokens)).0 unread
        (started-Follows message_id model input_tokens) h last
