-- ===== src/Streaming/Responses/Ending.antt =====
-- The end of a response: all blocks are closed, a message without content gets a text, and the message
-- is closed.
use luicode.Base.{
  string_eq, nat_eq, ℕ, Bool, true, false, String, Option, none, some, List, [], ◌∷◌, ◌++◌,
  if◌then◌else◌, ◌≡◌, refl, ap, sym, subst, ◌∙◌, arith, Bool-cases, inl, inr,
}
use luicode.Base.Dict.{Dict, lookup, values}
use luicode.Base.Json.{Fields}
use luicode.Base.Outcome.{ok}
use luicode.Streaming.Events.{BlockIndex, unset, at, SseEvent, message_stop, Delta, text_delta}
use luicode.Streaming.Ledger.{
  Ledger, StreamBlockState, delta_block, stop_block, stop_message, delta_at, add_part, delta_text,
  close_state, drop_open,
}
use luicode.Streaming.Ledger.Calls.{
  ◌then_emit◌, quiet, has_content_block, ensure_text_block, emit_text_delta, stop_text_block,
  close_all_blocks,
}
use luicode.Streaming.Contract.{
  Contract, check_event, check_events, and_check, index_eq, in_text, Storage, some_seen,
}
use luicode.Streaming.Ledger.Stack.{check_events-append}
use luicode.Streaming.Ledger.Tracked.{IsTracked, some_block, some_block-insert, some_block-lookup}
use luicode.Streaming.Ledger.Protocol.{
  IsStreaming, Passes, passes_quiet, passes_after, passes_then, passes_weaken, delta_passes,
  stop_text_passes,
}
use luicode.Streaming.Ledger.Methods.{
  ensure_text_block_passes, close_all_blocks_passes, TextOnly, Closed, no_blocks_named,
}
use luicode.Streaming.ToolNames.{OpenAiToolNameCodec}
use luicode.Streaming.Responses.{ResponsesProviderStream, Fed}
use luicode.Streaming.Responses.Feed.{finish, add_text_unless_content, closing_message}
use luicode.Streaming.Responses.Followed.{Follows}

has_content-some : (l : Ledger) → has_content_block l ≡ true → some_block l.content_blocks ≡ true
has_content-some l h = has_values l.content_blocks h
  where
    has_values :
        (d : Dict ℕ StreamBlockState)
        → (elim (values d) as (λ x. Bool) [ [] ↦ false | b ∷ bs ↦ true ]) ≡ true
        → some_block d ≡ true
    has_values [] h = h
    has_values (b ∷ d) h = refl

some_after_delta :
    (l : Ledger) (i : BlockIndex) (d : Delta)
    → some_block l.content_blocks ≡ true
    → some_block (delta_block l i d).0.content_blocks ≡ true
unfolding delta_block
some_after_delta l unset d h = h
some_after_delta l (at i) d h = after_delta (lookup i l.content_blocks)
  where
    after_part :
        (s : StreamBlockState) (o : Option String)
        → some_block (add_part l i s o).content_blocks ≡ true
    after_part s none = h
    after_part s (some p) =
        some_block-insert i (record s { parts = s.parts ++ p ∷ [] }) l.content_blocks

    after_delta :
        (o : Option StreamBlockState) → some_block (delta_at l i o d).content_blocks ≡ true
    after_delta none = h
    after_delta (some s) = after_part s (delta_text s.block_type d)

some_after_stop :
    (l : Ledger) (i : BlockIndex)
    → some_block l.content_blocks ≡ true
    → some_block (stop_block l i).0.content_blocks ≡ true
unfolding stop_block
some_after_stop l unset h = h
some_after_stop l (at i) h = after_stop (lookup i l.content_blocks)
  where
    after_stop :
        (o : Option StreamBlockState)
        → some_block
            (close_state (record l { open_stack = drop_open i l.open_stack }) i o).content_blocks
          ≡ true
    after_stop none = h
    after_stop (some s) = some_block-insert i (record s { is_open = false }) l.content_blocks

-- An open block is one of the ledger's.
some_of_open :
    (l : Ledger) (c : Contract) (i : BlockIndex) (kind : Storage)
    → lookup i c.open_blocks ≡ some kind
    → IsTracked l c
    → some_block l.content_blocks ≡ true
some_of_open l c unset kind h v = absurd (ground (arith, h, v.named))
some_of_open l c (at i) kind h v =
    some_block-lookup i l.content_blocks (ground (arith, v.kinds i, h))

abbrev with_text : Ledger → Ledger × List SseEvent
with_text l = ensure_text_block l then_emit (λ l'. emit_text_delta l' " ")

module _ (blank : String → Bool) where
  -- Every block is closed, and there was one.
  pub record Finished (c : Contract) (out : List SseEvent) : Type 0 where
    pub after : Contract
    pub checked : check_events blank c out ≡ some after
    pub closed : after.open_blocks ≡ []
    pub content : some_seen after.seen_blocks ≡ true

  with_text_passes :
      (empty : blank "" ≡ true) (l : Ledger) (c : Contract)
      → IsStreaming l c []
      → Passes blank c (with_text l) [] (TextOnly l.blocks)
  with_text_passes empty l c v =
      let r = ensure_text_block l in
      passes_then blank c r (λ l'. emit_text_delta l' " ") [] [] (TextOnly l.blocks)
        (TextOnly l.blocks) (ensure_text_block_passes blank empty l c [] v)
        (λ c' v' h.
          passes_weaken blank c' (emit_text_delta r.0 " ") [] (λ b. b ≡ r.0.blocks)
            (TextOnly l.blocks) (λ e. subst (TextOnly l.blocks) (sym e) h)
            (delta_passes blank r.0 c' [] r.0.blocks.text_index in_text (text_delta " ")
              (v'.named.text h.1) refl v'))

  finished_of :
      (c : Contract) (r : Ledger × List SseEvent)
      → Passes blank c r [] Closed
      → some_block r.0.content_blocks ≡ true
      → Finished c r.1
  finished_of c r p h = record {
    after = p.after;
    checked = p.checked;
    closed = no_blocks_named r.0.blocks p.after.open_blocks p.streaming.named p.holds.0 p.holds.1;
    content = sym p.streaming.tracked.seen ∙ h;
  }

  -- What a ledger with no open block has in the end.
  record Filled (c : Contract) (r : Ledger × List SseEvent) : Type 0 where
    passes : Passes blank c r [] Closed
    content : some_block r.0.content_blocks ≡ true

  filled :
      (empty : blank "" ≡ true) (l : Ledger) (c : Contract)
      → IsStreaming l c []
      → Closed l.blocks
      → Filled c (add_text_unless_content l)
  filled empty l c v h = elim (Bool-cases (has_content_block l)) [
    | inl full ↦
        subst (λ b. Filled c (if b then quiet l else with_text l then_emit stop_text_block))
          (sym full)
          (record {
            passes = passes_quiet blank l c [] Closed v h;
            content = has_content-some l full;
          })
    | inr empty_message ↦
        subst (λ b. Filled c (if b then quiet l else with_text l then_emit stop_text_block))
          (sym empty_message)
          (let r = with_text l in
            let p = with_text_passes empty l c v in
            let q = stop_text_passes blank r.0 p.after [] p.holds.1 p.streaming in
            record {
              passes = passes_after blank c r stop_text_block [] [] (TextOnly l.blocks) Closed p (
                  passes_weaken blank p.after (stop_text_block r.0) []
                    (λ b. b ≡ record r.0.blocks { text_started = false }) Closed
                    (λ e. (ap (λ b. b.text_started) e, ap (λ b. b.thinking_started) e ∙ p.holds.2))
                    q);
              content =
                  some_after_stop
                    (record r.0 { blocks = record r.0.blocks { text_started = false } })
                    r.0.blocks.text_index
                    (some_of_open r.0 p.after r.0.blocks.text_index in_text
                      (p.streaming.named.text p.holds.1) p.streaming.tracked);
            })
  ]

  finished_more :
      (c : Contract) (out more : List SseEvent)
      → ((c' : Contract) → check_events blank c' more ≡ some c')
      → Finished c out
      → Finished c (out ++ more)
  finished_more c out more same f = record {
    after = f.after;
    checked =
        check_events-append blank c out more
        ∙ ap (λ o. and_check blank o (λ c'. check_events blank c' more)) f.checked
        ∙ same f.after;
    closed = f.closed;
    content = f.content;
  }

  -- A message that is over: its events pass and end in its stop.
  pub record Ended (c : Contract) (m : Fed) : Type 0 where
    pub result : ResponsesProviderStream × List SseEvent
    pub returned : m ≡ ok result
    pub over : result.0.completed ≡ true
    pub finished : Finished c result.1
    pub init : List SseEvent
    pub ending : result.1 ≡ init ++ message_stop ∷ []

  pub finish-Ended :
      (empty : blank "" ≡ true) (int_of : String → Option ℕ) (zero : String → Bool)
      (tokens : String → ℕ) (tool_names : OpenAiToolNameCodec) (s : ResponsesProviderStream)
      (c : Contract) (d : Fields) (incomplete : Bool)
      → Follows s c
      → Ended c (finish int_of zero tokens tool_names s d incomplete)
  unfolding finish check_event check_events
  finish-Ended empty int_of zero tokens tool_names s c d incomplete v =
      let r0 = close_all_blocks s.ledger in
      let p0 = close_all_blocks_passes blank s.ledger c v.streaming in
      let f = filled empty r0.0 p0.after p0.streaming p0.holds in
      let r1 = r0 then_emit add_text_unless_content in
      let done =
        finished_of c r1
          (passes_after blank c r0 add_text_unless_content [] [] Closed Closed p0 f.passes)
          f.content in
      let close = closing_message int_of zero tokens tool_names d incomplete in
      let r2 = r1 then_emit close in
      let r3 = r2 then_emit stop_message in
      record {
        result = (record s { ledger = r3.0; completed = true }, r3.1);
        returned = refl;
        over = refl;
        finished =
            finished_more c r2.1 (message_stop ∷ []) (λ c'. refl)
              (finished_more c r1.1 (close r1.0).1 (λ c'. refl) done);
        init = r2.1;
        ending = refl;
      }
