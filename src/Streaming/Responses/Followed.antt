-- ===== src/Streaming/Responses/Followed.antt =====
-- What `ResponsesProviderStream` emits for one event of an orderly upstream passes the contract's
-- checker, which goes on with the stream.
use luicode.Base.{
  string_eq, nat_eq, Bool, true, false, not, ◌&&◌, ◌||◌, String, Option, none, some, List, [],
  if◌then◌else◌, ◌≡◌, refl, ap, sym, subst, ◌∙◌, arith, is_some, truthy,
}
use luicode.Base.Dict.{insert}
use luicode.Base.Json.{Fields}
use luicode.Base.Outcome.{ok}
use luicode.Streaming.Events.{at, SseEvent, signature_delta, redacted_block}
use luicode.Streaming.Blocks.{StreamBlockLedger}
use luicode.Streaming.Ledger.{Ledger, delta_block, stop_block}
use luicode.Streaming.Ledger.Calls.{
  ◌then_emit◌, start_next_block, emit_tool_delta, stop_thinking_block, close_content_blocks,
}
use luicode.Streaming.Contract.{Contract, check_events, in_thinking}
use luicode.Streaming.Ledger.Protocol.{
  IsStreaming, Passes, passes_then, passes_weaken, delta_passes, stop_thinking_passes,
  redacted_passes, SameTools,
}
use luicode.Streaming.Ledger.Methods.{close_content_blocks_passes}
use luicode.Streaming.Responses.{
  ResponsesProviderStream, ToolState, Fed, fed, nothing, tool_delta_of, call_done, hidden_done,
  late_arguments, begin_tool, ◌then_try◌, emit_late, finish_once, is_replay,
}
use luicode.Streaming.Responses.Slots.{Slots, Slots-put, Placed}
use luicode.Streaming.Responses.Turns.{Slot, Tried, delta-Tried, done-Tried}

-- The stream while it runs, against the checker's state.
pub record Follows (s : ResponsesProviderStream) (c : Contract) : Type 0 where
  pub running : s.completed ≡ false
  pub streaming : IsStreaming s.ledger c s.ledger.blocks.tool_states
  pub slots : Slots s.tools s.ledger.blocks.tool_states

-- A call that is not stopped.
abbrev pub goes_on : Option ToolState → Bool
goes_on none = true
goes_on (some st) = not st.stopped

module _ (blank : String → Bool) where
  -- The stream returns, its events pass, and it is followed on.
  pub record Answers (c : Contract) (m : Fed) : Type 0 where
    pub result : ResponsesProviderStream × List SseEvent
    pub returned : m ≡ ok result
    pub after : Contract
    pub checked : check_events blank c result.1 ≡ some after
    pub follows : Follows result.0 after

  pub nothing-Answers :
      (s : ResponsesProviderStream) (c : Contract) → Follows s c → Answers c (nothing s)
  unfolding check_events
  nothing-Answers s c v = record {
    result = (s, []);
    returned = refl;
    after = c;
    checked = refl;
    follows = v;
  }

  -- A call on the ledger that leaves the tools alone.
  pub passes-Answers :
      (s : ResponsesProviderStream) (c : Contract) (r : Ledger × List SseEvent) (generated : Bool)
      → Follows s c
      → Passes blank c r s.ledger.blocks.tool_states (SameTools s.ledger.blocks)
      → Answers c (ok (record s { ledger = r.0; generated_output = generated }, r.1))
  passes-Answers s c r generated v p = record {
    result = (record s { ledger = r.0; generated_output = generated }, r.1);
    returned = refl;
    after = p.after;
    checked = p.checked;
    follows = record {
      running = v.running;
      streaming = subst (IsStreaming r.0 p.after) (sym p.holds) p.streaming;
      slots = subst (Slots s.tools) (sym p.holds) v.slots;
    };
  }

  fed_found :
      (o : Option (Ledger × List SseEvent)) (r : Ledger × List SseEvent)
      (f : Ledger → ResponsesProviderStream)
      → o ≡ some r
      → fed o f ≡ ok (f r.0, r.1)
  fed_found o r f e = rw e

  -- A call's turn leaves it started, and stopped if its tool is not.
  turn-Answers :
      (s : ResponsesProviderStream) (c : Contract) (id : String) (st : ToolState)
      (o : Option (Ledger × List SseEvent)) (on generated : Bool)
      → Follows s c
      → Placed s.tools id st.tool_index
      → st.started ≡ true
      → on ≡ not st.stopped
      → Tried blank c o st.tool_index s.ledger.blocks.tool_states on
      → Answers c (
          fed o (λ l. record s {
            ledger = l;
            generated_output = generated;
            tools = insert id st s.tools;
          }))
  turn-Answers s c id st o on generated v place start live t =
      let r = t.result in
      let u = t.turn in
      let f = λ (l : Ledger). record s {
        ledger = l;
        generated_output = generated;
        tools = insert id st s.tools;
      } in
      record {
        result = (f r.0, r.1);
        returned = fed_found o r f t.returned;
        after = u.passes.after;
        checked = u.passes.checked;
        follows = record {
          running = v.running;
          streaming = u.passes.streaming;
          slots =
              Slots-put s.tools s.ledger.blocks.tool_states v.slots id st place
                r.0.blocks.tool_states u.tool u.at_k start (u.so ∙ live);
        };
      }

  pub tool_delta_of-Answers :
      (s : ResponsesProviderStream) (c : Contract) (id : String) (st : ToolState) (delta : String)
      → Follows s c
      → Placed s.tools id st.tool_index
      → Slot s.ledger.blocks.tool_states st
      → st.stopped ≡ false
      → Answers c (tool_delta_of s id st delta)
  unfolding tool_delta_of
  tool_delta_of-Answers s c id st delta v place slot off =
      let st' : ToolState = record st {
        started = true;
        received_delta = st.received_delta || truthy delta;
      } in
      let begun = close_content_blocks s.ledger then_emit begin_tool st in
      turn-Answers s c id st'
        (if truthy delta
          then some begun then_try (λ l. emit_tool_delta l st.tool_index delta)
          else some begun)
        true (s.generated_output || not st.started || truthy delta) v place refl (ap not (sym off))
        (delta-Tried blank s.ledger c st delta off slot v.streaming)

  pub call_done-Answers :
      (s : ResponsesProviderStream) (c : Contract) (id : String) (st : ToolState) (item : Fields)
      → Follows s c
      → Placed s.tools id st.tool_index
      → Slot s.ledger.blocks.tool_states st
      → st.stopped ≡ false
      → Answers c (call_done s id st item)
  unfolding call_done
  call_done-Answers s c id st item v place slot off =
      let st' : ToolState = record st { started = true; stopped = true } in
      turn-Answers s c id st'
        (some (close_content_blocks s.ledger then_emit begin_tool st)
          then_try emit_late st (late_arguments st item)
          then_try finish_once st)
        false (s.generated_output || not st.started || is_some (late_arguments st item)) v place
        refl refl (done-Tried blank s.ledger c st (late_arguments st item) off slot v.streaming)

  replayed_passes :
      (l : Ledger) (c : Contract) (e : String)
      → l.blocks.thinking_started ≡ true
      → IsStreaming l c l.blocks.tool_states
      → Passes blank c
          (delta_block l l.blocks.thinking_index (signature_delta e) then_emit stop_thinking_block)
          l.blocks.tool_states
          (SameTools l.blocks)
  unfolding delta_block stop_block
  replayed_passes l c e on v =
      let t = l.blocks.tool_states in
      let r = delta_block l l.blocks.thinking_index (signature_delta e) in
      passes_then blank c r stop_thinking_block t t (λ b. b ≡ l.blocks) (SameTools l.blocks)
        (delta_passes blank l c t l.blocks.thinking_index in_thinking (signature_delta e)
          (v.named.thinking on) refl v)
        (λ c' v' same.
          passes_weaken blank c' (stop_thinking_block r.0) t
            (λ b. b ≡ record r.0.blocks { thinking_started = false }) (SameTools l.blocks)
            (λ h. ap (λ b. b.tool_states) h ∙ ap (λ b. b.tool_states) same)
            (stop_thinking_passes blank r.0 c' t (ap (λ b. b.thinking_started) same ∙ on) v'))

  hidden_passes :
      (l : Ledger) (c : Contract) (e : String)
      → IsStreaming l c l.blocks.tool_states
      → Passes blank c
          (let closed = close_content_blocks l in
            closed then_emit (λ l'.
              start_next_block l' (redacted_block (some e))
              then_emit (λ m. stop_block m (at closed.0.blocks.next_index))))
          l.blocks.tool_states
          (SameTools l.blocks)
  hidden_passes l c e v =
      let t = l.blocks.tool_states in
      let closed = close_content_blocks l in
      let f = λ (l' : Ledger).
        start_next_block l' (redacted_block (some e))
        then_emit (λ m. stop_block m (at closed.0.blocks.next_index)) in
      let P = λ (b : StreamBlockLedger).
        b ≡ record l.blocks { text_started = false; thinking_started = false } in
      passes_then blank c closed f t t P (SameTools l.blocks)
        (close_content_blocks_passes blank l c t v)
        (λ c' v' same.
          passes_weaken blank c' (f closed.0) t (SameTools closed.0.blocks) (SameTools l.blocks)
            (λ h. h ∙ ap (λ b. b.tool_states) same)
            (redacted_passes blank closed.0 c' t (some e) v'))

  pub if-Answers :
      (c : Contract) (b : Bool) (m m' : Fed)
      → (b ≡ true → Answers c m)
      → (b ≡ false → Answers c m')
      → Answers c (if b then m else m')
  if-Answers c true m m' on off = on refl
  if-Answers c false m m' on off = off refl

  pub hidden_done-Answers :
      (s : ResponsesProviderStream) (c : Contract) (o : Option String)
      → Follows s c
      → Answers c (hidden_done s o)
  unfolding hidden_done
  hidden_done-Answers s c none v = nothing-Answers s c v
  hidden_done-Answers s c (some e) v =
      let l = s.ledger in
      let replayed =
        delta_block l l.blocks.thinking_index (signature_delta e) then_emit stop_thinking_block in
      let closed = close_content_blocks l in
      let whole = closed then_emit (λ l'.
        start_next_block l' (redacted_block (some e))
        then_emit (λ m. stop_block m (at closed.0.blocks.next_index))) in
      if-Answers c (is_replay e && l.blocks.thinking_started)
        (ok (record s { ledger = replayed.0 }, replayed.1))
        (ok (record s { ledger = whole.0; generated_output = true }, whole.1))
        (λ h.
          passes-Answers s c replayed s.generated_output v
            (replayed_passes l c e (ground (arith, h)) v.streaming))
        (λ h. passes-Answers s c whole true v (hidden_passes l c e v.streaming))
