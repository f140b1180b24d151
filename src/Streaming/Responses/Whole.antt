-- ===== src/Streaming/Responses/Whole.antt =====
-- A whole response: every event of the upstream is fed to the stream in turn.
use luicode.Base.{
  string_eq, nat_eq, ℕ, Bool, true, false, ◌&&◌, ◌||◌, String, Option, some, List, [], ◌∷◌, ◌++◌,
  ◌≡◌, refl, ap, sym, subst, ◌∙◌, arith, inl, inr, Bool-cases, contains,
}
use mathlib.Core.List.{append-nil}
use luicode.Base.Dict.{lookup}
use luicode.Base.Json.{Fields}
use luicode.Base.Outcome.{ok, raised, ◌>>=◌, Returns, Returns-bind, Returns-mono}
use luicode.Streaming.Events.{SseEvent, message_start, message_stop}
use luicode.Streaming.Contract.{
  Contract, unread, index_eq, check_event, check_events, and_check, any_start, ends_in_stop,
  meets_contract, finished, no_blocks, some_seen,
}
use luicode.Streaming.Ledger.Stack.{check_events-append}
use luicode.Streaming.ToolNames.{OpenAiToolNameCodec}
use luicode.Streaming.Responses.{ResponsesProviderStream, Fed, nothing, new_stream, start}
use luicode.Streaming.Responses.Feed.{feed}
use luicode.Streaming.Responses.Followed.{Follows, Answers}
use luicode.Streaming.Responses.Orderly.{orderly, is_final}
use luicode.Streaming.Responses.Ending.{Ended, Finished}
use luicode.Streaming.Responses.Conforms.{feed-Answers, feed-Ended}

abbrev pub Upstream : Type 0
Upstream = List (String × Fields)

-- The upstream ends its response.
abbrev pub any_final : Upstream → Bool
any_final [] = false
any_final ((t, d) ∷ es) = is_final t || any_final es

pub started-Follows :
    (message_id model : String) (input_tokens : ℕ)
    → Follows (start (new_stream message_id model input_tokens)).0 unread
unfolding lookup contains
started-Follows message_id model input_tokens = record {
  running = refl;
  streaming = record {
    tracked = record {
      opened = λ i. refl;
      distinct = tt;
      bounded = λ i h. ground (arith, h);
      within = λ i h. ground (arith, h);
      kinds = λ i h. ground (arith, h);
      named = refl;
      seen = refl;
      indexed = λ i. refl;
    };
    named = record {
      text = λ h. ground (arith, h);
      thinking = λ h. ground (arith, h);
      texts = λ i h. ground (arith, h);
      thinkings = λ i h. ground (arith, h);
      plain = λ i h. ground (arith, h);
      tools = λ k s e h. ground (arith, e);
      owners = λ i h. absurd (ground (arith, h));
      apart = λ j k s t e f g h x. ground (arith, e);
      unique = tt;
    };
  };
  slots = record {
    bounded = λ id st e. ground (arith, e);
    apart = λ i j s t e f q. ground (arith, e);
    live = λ id st e h. absurd (ground (arith, e));
    idle = λ id st e h. ground (arith, e);
    unused = λ k h. refl;
  };
}

both_true : (a b : Bool) → (a && b) ≡ true → (a ≡ true) × (b ≡ true)
both_true a b h = ground (arith, h)

ends_in_stop-cons :
    (x : SseEvent) (ys : List SseEvent) → ends_in_stop ys ≡ true → ends_in_stop (x ∷ ys) ≡ true
ends_in_stop-cons x [] h = ground (arith, h)
ends_in_stop-cons x (y ∷ ys) h = h

ends_in_stop-append :
    (xs ys : List SseEvent) → ends_in_stop ys ≡ true → ends_in_stop (xs ++ ys) ≡ true
ends_in_stop-append [] ys h = h
ends_in_stop-append (x ∷ xs) ys h = ends_in_stop-cons x (xs ++ ys) (ends_in_stop-append xs ys h)

module _ (int_of : String → Option ℕ) (zero : String → Bool) (tokens : String → ℕ)
    (tool_names : OpenAiToolNameCodec) where
  unfoldable pub feed_all : ResponsesProviderStream → Upstream → Fed
  unfolding feed
  feed_all s [] = nothing s
  feed_all s ((t, d) ∷ es) =
      feed int_of zero tokens tool_names s t d
      >>= (λ r. feed_all r.0 es >>= (λ r'. ok (r'.0, r.1 ++ r'.1)))

  abbrev pub after_feed : Fed → (ResponsesProviderStream → Bool) → Bool
  after_feed (ok r) f = f r.0
  after_feed (raised e) f = true

  -- Each event is in its order, as the ones before it have left the stream. Of an event that raises it
  -- asks nothing more than its own order, so it does not assume that the stream answers.
  unfoldable pub all_orderly : ResponsesProviderStream → Upstream → Bool
  unfolding feed orderly
  all_orderly s [] = true
  all_orderly s ((t, d) ∷ es) =
      orderly s t d
      && after_feed (feed int_of zero tokens tool_names s t d) (λ s'. all_orderly s' es)

  feed_over :
      (s : ResponsesProviderStream) (t : String) (d : Fields)
      → s.completed ≡ true
      → feed int_of zero tokens tool_names s t d ≡ ok (s, [])
  unfolding feed
  feed_over s t d h = rw h

  -- After its end, the stream answers with nothing.
  pub feed_all-over :
      (s : ResponsesProviderStream) (es : Upstream)
      → s.completed ≡ true
      → feed_all s es ≡ ok (s, [])
  unfolding feed_all
  feed_all-over s [] h = refl
  feed_all-over s ((t, d) ∷ es) h = rw (feed_over s t d h, feed_all-over s es h)

  module _ (blank : String → Bool) (empty : blank "" ≡ true) where
    record Whole (c : Contract) (out : List SseEvent) : Type 0 where
      finished : Finished blank c out
      stops : ends_in_stop out ≡ true

    join-Whole :
        (c c' : Contract) (xs ys : List SseEvent)
        → check_events blank c xs ≡ some c'
        → Whole c' ys
        → Whole c (xs ++ ys)
    join-Whole c c' xs ys h w = record {
      finished = record {
        after = w.finished.after;
        checked =
            check_events-append blank c xs ys
            ∙ ap (λ o. and_check blank o (λ x. check_events blank x ys)) h
            ∙ w.finished.checked;
        closed = w.finished.closed;
        content = w.finished.content;
      };
      stops = ends_in_stop-append xs ys w.stops;
    }

    abbrev rest_of : Upstream → ResponsesProviderStream × List SseEvent → Fed
    rest_of es r = feed_all r.0 es >>= (λ r'. ok (r'.0, r.1 ++ r'.1))

    -- The rest of the events after one that was answered.
    answered :
        (c : Contract) (m : Fed) (es : Upstream) (a : Answers blank c m)
        → Returns (feed_all a.result.0 es) (λ r. Whole a.after r.1)
        → Returns (m >>= rest_of es) (λ r. Whole c r.1)
    answered c m es a h =
        let r = a.result in
        subst (λ x. Returns (x >>= rest_of es) (λ y. Whole c y.1)) (sym a.returned)
          (Returns-bind (feed_all r.0 es) (λ r'. ok (r'.0, r.1 ++ r'.1)) (λ y. Whole a.after y.1)
            (λ y. Whole c y.1) h (λ r' w. join-Whole c a.after r.1 r'.1 a.checked w))

    -- What comes after the end is left out.
    ended :
        (c : Contract) (m : Fed) (es : Upstream)
        → Ended blank c m
        → Returns (m >>= rest_of es) (λ r. Whole c r.1)
    ended c m es e =
        let r = e.result in
        let w : Whole c r.1 = record {
          finished = e.finished;
          stops =
              subst (λ x. ends_in_stop x ≡ true) (sym e.ending)
                (ends_in_stop-append e.init (message_stop ∷ []) refl);
        } in
        let rest : ResponsesProviderStream × List SseEvent → Fed = λ r'. ok (r'.0, r.1 ++ r'.1) in
        subst (λ x. Returns (x >>= rest_of es) (λ y. Whole c y.1)) (sym e.returned)
          (subst (λ x. Returns (x >>= rest) (λ y. Whole c y.1)) (sym (feed_all-over r.0 es e.over))
            (subst (Whole c) (sym (append-nil r.1)) w))

    pub all_orderly-head :
        (s : ResponsesProviderStream) (t : String) (d : Fields) (es : Upstream)
        → all_orderly s ((t, d) ∷ es) ≡ true
        → (orderly s t d ≡ true)
          × (after_feed (feed int_of zero tokens tool_names s t d) (λ s'. all_orderly s' es) ≡ true)
    unfolding all_orderly
    all_orderly-head s t d es h =
        both_true (orderly s t d)
          (after_feed (feed int_of zero tokens tool_names s t d) (λ s'. all_orderly s' es)) h

    feed_all-Whole :
        (es : Upstream) (s : ResponsesProviderStream) (c : Contract)
        → Follows s c
        → all_orderly s es ≡ true
        → any_final es ≡ true
        → Returns (feed_all s es) (λ r. Whole c r.1)
    unfolding feed_all
    feed_all-Whole [] s c v h last = absurd (ground (arith, last))
    feed_all-Whole ((t, d) ∷ es) s c v h last =
        let m = feed int_of zero tokens tool_names s t d in
        let o = all_orderly-head s t d es h in
        elim (Bool-cases (is_final t)) [
          | inl final ↦
              ended c m es (feed-Ended blank empty int_of zero tokens tool_names s c t d v final)
          | inr more ↦
              let a = feed-Answers blank empty int_of zero tokens tool_names s c t d v o.0 more in
              answered c m es a (
                feed_all-Whole es a.result.0 a.after a.follows
                  (ap (λ x. after_feed x (λ s'. all_orderly s' es)) (sym a.returned) ∙ o.1)
                  (ground (arith, last, more)))
        ]

    finished_closed :
        (c : Contract)
        → c.open_blocks ≡ []
        → some_seen c.seen_blocks ≡ true
        → finished blank (some c) ≡ true
    finished_closed c h k = ap (λ x. no_blocks x && some_seen c.seen_blocks) h ∙ k

    meets_contract-of :
        (es : List SseEvent)
        → any_start es ≡ true
        → Whole unread es
        → meets_contract blank es ≡ true
    unfolding meets_contract
    meets_contract-of es begun w =
        let f = w.finished in
        ap (λ x. x && ends_in_stop es && finished blank (check_events blank unread es)) begun
        ∙ ap (λ x. x && finished blank (check_events blank unread es)) w.stops
        ∙ ap (finished blank) f.checked
        ∙ finished_closed f.after f.closed f.content

    started_check :
        (id model : String) (n : ℕ)
        → check_events blank unread (message_start id model n ∷ []) ≡ some unread
    unfolding check_events check_event
    started_check id model n = refl

    -- Whatever events an upstream sends, one of them a final one, if they are orderly (it does not add a
    -- call under an id that is taken, says nothing of a call that is done, and does not fail): the stream answers all of
    -- them without raising, and what the client gets, from the start of the message on, meets the
    -- contract of an Anthropic stream. A text is blank to the contract at least if it is empty.
    pub response-meets_contract :
        (message_id model : String) (input_tokens : ℕ) (es : Upstream)
        → all_orderly (start (new_stream message_id model input_tokens)).0 es ≡ true
        → any_final es ≡ true
        → Returns (feed_all (start (new_stream message_id model input_tokens)).0 es) (λ r.
          meets_contract blank ((start (new_stream message_id model input_tokens)).1 ++ r.1) ≡ true)
    response-meets_contract message_id model input_tokens es h last =
        let s = (start (new_stream message_id model input_tokens)).0 in
        Returns-mono (feed_all s es) (λ r. Whole unread r.1)
          (λ r.
            meets_contract blank ((start (new_stream message_id model input_tokens)).1 ++ r.1)
            ≡ true)
          (λ r w.
            let begin = message_start message_id model input_tokens in
            meets_contract-of (begin ∷ r.1) refl (
              join-Whole unread unread (begin ∷ []) r.1
                (started_check message_id model input_tokens) w))
          (feed_all-Whole es s unread (started-Follows message_id model input_tokens) h last)
