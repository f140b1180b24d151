-- ===== src/Streaming/Responses/Turns.antt =====
-- One call of a response, from its start to its end, in the ledger.
use luicode.Base.{
  string_eq, nat_eq, nat_beq_iff, ℕ, Bool, true, false, not, String, Option, none, some, List, ◌++◌,
  ◌==◌, if◌then◌else◌, ◌≡◌, refl, ap, sym, subst, ◌∙◌, arith, inl, truthy,
}
use luicode.Base.Dict.{Dict, lookup, insert, lookup-insert}
use luicode.Streaming.Events.{SseEvent}
use luicode.Streaming.Blocks.{StreamBlockLedger, ToolBlockState}
use luicode.Streaming.Ledger.{Ledger}
use luicode.Streaming.Ledger.Calls.{
  ◌then_emit◌, quiet, start_tool_block, emit_tool_delta, close_content_blocks,
}
use luicode.Streaming.Contract.{Contract}
use luicode.Streaming.Ledger.Protocol.{
  IsStreaming, Passes, passes_quiet, passes_after, passes_weaken,
}
use luicode.Streaming.Ledger.Methods.{close_content_blocks_passes}
use luicode.Streaming.Ledger.ToolCalls.{
  ToolsAre, start_tool_passes, emit_tool_delta_passes, finish_tool_passes,
}
use luicode.Streaming.Responses.{
  ToolState, begin_tool, ◌then_try◌, emit_late, finish_once, finish_tool,
}

-- The call's tool in the ledger: started exactly when the call is started and not stopped.
pub record Slot (states : Dict ℕ ToolBlockState) (st : ToolState) : Type 0 where
  pub live :
      st.started ≡ true
      → (x : ToolBlockState) × (lookup st.tool_index states ≡ some x) × (x.started ≡ not st.stopped)
  pub idle : st.started ≡ false → lookup st.tool_index states ≡ none

abbrev Any : StreamBlockLedger → Type 0
Any b = Unit

module _ (blank : String → Bool) where
  abbrev pub Goes : Contract → Ledger × List SseEvent → Type 0
  Goes c r = Passes blank c r r.0.blocks.tool_states Any

  goes :
      (c : Contract) (r : Ledger × List SseEvent) (t : Dict ℕ ToolBlockState)
      → Passes blank c r t (ToolsAre t)
      → Goes c r
  goes c r t p = record {
    after = p.after;
    checked = p.checked;
    streaming = subst (IsStreaming r.0 p.after) (sym p.holds) p.streaming;
    holds = tt;
  }

  -- The tools are as they were, but for that of the call.
  pub record Turn (c : Contract) (r : Ledger × List SseEvent) (i : ℕ)
      (states : Dict ℕ ToolBlockState) (on : Bool) : Type 0 where
    pub tool : ToolBlockState
    pub so : tool.started ≡ on
    pub at_k :
        (k : ℕ) → lookup k r.0.blocks.tool_states ≡ (if i == k then some tool else lookup k states)
    pub passes : Goes c r

  turn_at :
      (c : Contract) (r : Ledger × List SseEvent) (i : ℕ) (states : Dict ℕ ToolBlockState)
      (on : Bool) (u : Turn c r i states on)
      → lookup i r.0.blocks.tool_states ≡ some u.tool
  turn_at c r i states on u = ground (arith, u.at_k i, nat_beq_iff i i)

  begin_passes :
      (l : Ledger) (c : Contract) (st : ToolState) (b : Bool)
      → b ≡ st.started
      → st.stopped ≡ false
      → Slot l.blocks.tool_states st
      → IsStreaming l c l.blocks.tool_states
      → Turn c
          (if b then quiet l else start_tool_block l st.tool_index st.call_id st.name none)
          st.tool_index
          l.blocks.tool_states
          true
  begin_passes l c st true e off slot v =
      let (x, there, so) = slot.live (sym e) in
      record {
        tool = x;
        so = ground (arith, so, off);
        at_k = λ k. ground (arith, there, nat_beq_iff st.tool_index k);
        passes = passes_quiet blank l c l.blocks.tool_states Any v tt;
      }
  begin_passes l c st false e off slot v =
      let (x, on, p) =
        start_tool_passes blank l c st.tool_index st.call_id st.name none (inl (slot.idle (sym e)))
          v in
      let t = insert st.tool_index x l.blocks.tool_states in
      record {
        tool = x;
        so = on;
        at_k = λ k. ap (lookup k) p.holds ∙ lookup-insert st.tool_index k x l.blocks.tool_states;
        passes = goes c (start_tool_block l st.tool_index st.call_id st.name none) t p;
      }

  -- The content blocks are closed, and the call is started if it is not.
  pub begun :
      (l : Ledger) (c : Contract) (st : ToolState)
      → st.stopped ≡ false
      → Slot l.blocks.tool_states st
      → IsStreaming l c l.blocks.tool_states
      → Turn c
          (close_content_blocks l then_emit begin_tool st)
          st.tool_index
          l.blocks.tool_states
          true
  begun l c st off slot v =
      let t = l.blocks.tool_states in
      let r = close_content_blocks l in
      let p = close_content_blocks_passes blank l c t v in
      let same : r.0.blocks.tool_states ≡ t = ap (λ b. b.tool_states) p.holds in
      let u =
        begin_passes r.0 p.after st st.started refl off (subst (λ x. Slot x st) (sym same) slot)
          (subst (IsStreaming r.0 p.after) (sym same) p.streaming) in
      record {
        tool = u.tool;
        so = u.so;
        at_k =
            λ k. u.at_k k ∙ ap (λ x. if st.tool_index == k then some u.tool else lookup k x) same;
        passes =
            passes_after blank c r (begin_tool st) t (begin_tool st r.0).0.blocks.tool_states
              (λ b. b ≡ record l.blocks { text_started = false; thinking_started = false }) Any p
              u.passes;
      }

  -- A call that may raise, and does not.
  pub record Tried (c : Contract) (o : Option (Ledger × List SseEvent)) (i : ℕ)
      (states : Dict ℕ ToolBlockState) (on : Bool) : Type 0 where
    pub result : Ledger × List SseEvent
    pub returned : o ≡ some result
    pub turn : Turn c result i states on

  try_found :
      (r e : Ledger × List SseEvent) (f : Ledger → Option (Ledger × List SseEvent))
      → f r.0 ≡ some e
      → (some r then_try f) ≡ some (e.0, r.1 ++ e.1)
  try_found r e f h = rw (h, ◌then_try◌)

  -- The call goes on with a step on the ledger.
  pub try_passes :
      (c : Contract) (o : Option (Ledger × List SseEvent))
      (f : Ledger → Option (Ledger × List SseEvent)) (i : ℕ) (states : Dict ℕ ToolBlockState)
      (on on' : Bool)
      → Tried c o i states on
      → ((l : Ledger) (c' : Contract) (x : ToolBlockState)
          → lookup i l.blocks.tool_states ≡ some x
          → x.started ≡ on
          → IsStreaming l c' l.blocks.tool_states
          → Tried c' (f l) i l.blocks.tool_states on')
      → Tried c (o then_try f) i states on'
  try_passes c o f i states on on' t step =
      let r = t.result in
      let u = t.turn in
      let p = u.passes in
      let s = step r.0 p.after u.tool (turn_at c r i states on u) u.so p.streaming in
      record {
        result = (s.result.0, r.1 ++ s.result.1);
        returned = ap (λ x. x then_try f) t.returned ∙ try_found r s.result f s.returned;
        turn = record {
          tool = s.turn.tool;
          so = s.turn.so;
          at_k = λ k. ground (arith, s.turn.at_k k, u.at_k k);
          passes =
              passes_after blank c r (λ l. s.result) r.0.blocks.tool_states
                s.result.0.blocks.tool_states Any Any p s.turn.passes;
        };
      }

  begun-Tried :
      (c : Contract) (r : Ledger × List SseEvent) (i : ℕ) (states : Dict ℕ ToolBlockState)
      (on : Bool)
      → Turn c r i states on
      → Tried c (some r) i states on
  begun-Tried c r i states on u = record { result = r; returned = refl; turn = u }

  quiet-Tried :
      (l : Ledger) (c : Contract) (i : ℕ) (x : ToolBlockState) (on : Bool)
      → lookup i l.blocks.tool_states ≡ some x
      → x.started ≡ on
      → IsStreaming l c l.blocks.tool_states
      → Tried c (some (quiet l)) i l.blocks.tool_states on
  quiet-Tried l c i x on e so v = begun-Tried c (quiet l) i l.blocks.tool_states on (record {
    tool = x;
    so = so;
    at_k = λ k. ground (arith, e, nat_beq_iff i k);
    passes = passes_quiet blank l c l.blocks.tool_states Any v tt;
  })

  emit-Tried :
      (l : Ledger) (c : Contract) (i : ℕ) (x : ToolBlockState) (json : String)
      → lookup i l.blocks.tool_states ≡ some x
      → x.started ≡ true
      → IsStreaming l c l.blocks.tool_states
      → Tried c (emit_tool_delta l i json) i l.blocks.tool_states true
  emit-Tried l c i x json e on v =
      let (r, found, p) = emit_tool_delta_passes blank l c i x json e on v in
      let same = ap (λ b. b.tool_states) p.holds in
      record {
        result = r;
        returned = found;
        turn = record {
          tool = x;
          so = on;
          at_k = λ k. ap (lookup k) same ∙ ground (arith, e, nat_beq_iff i k);
          passes = goes c r l.blocks.tool_states (
              passes_weaken blank c r l.blocks.tool_states (λ b. b ≡ l.blocks)
                (ToolsAre l.blocks.tool_states) (λ h. ap (λ b. b.tool_states) h) p);
        };
      }

  pub emit_late-Tried :
      (st : ToolState) (args : Option String) (l : Ledger) (c : Contract) (x : ToolBlockState)
      → lookup st.tool_index l.blocks.tool_states ≡ some x
      → x.started ≡ true
      → IsStreaming l c l.blocks.tool_states
      → Tried c (emit_late st args l) st.tool_index l.blocks.tool_states true
  emit_late-Tried st none l c x e on v = quiet-Tried l c st.tool_index x true e on v
  emit_late-Tried st (some args) l c x e on v = emit-Tried l c st.tool_index x args e on v

  finish-Tried :
      (l : Ledger) (c : Contract) (i : ℕ) (x : ToolBlockState)
      → lookup i l.blocks.tool_states ≡ some x
      → x.started ≡ true
      → IsStreaming l c l.blocks.tool_states
      → Tried c (finish_tool l i) i l.blocks.tool_states false
  finish-Tried l c i x e on v =
      let (r, found, p) = finish_tool_passes blank l c i x e on v in
      let x' : ToolBlockState = record x { started = false } in
      let t = insert i x' l.blocks.tool_states in
      record {
        result = r;
        returned = found;
        turn = record {
          tool = x';
          so = refl;
          at_k = λ k. ap (lookup k) p.holds ∙ lookup-insert i k x' l.blocks.tool_states;
          passes = goes c r t p;
        };
      }

  pub finish_once-Tried :
      (st : ToolState) (l : Ledger) (c : Contract) (x : ToolBlockState)
      → st.stopped ≡ false
      → lookup st.tool_index l.blocks.tool_states ≡ some x
      → x.started ≡ true
      → IsStreaming l c l.blocks.tool_states
      → Tried c (finish_once st l) st.tool_index l.blocks.tool_states false
  finish_once-Tried st l c x off e on v =
      subst
        (λ b.
          Tried c (if b then some (quiet l) else finish_tool l st.tool_index) st.tool_index
            l.blocks.tool_states false)
        (sym off) (finish-Tried l c st.tool_index x e on v)

  -- Some more arguments for a call that is not stopped.
  pub delta-Tried :
      (l : Ledger) (c : Contract) (st : ToolState) (delta : String)
      → st.stopped ≡ false
      → Slot l.blocks.tool_states st
      → IsStreaming l c l.blocks.tool_states
      → Tried c
          (let r = close_content_blocks l then_emit begin_tool st in
            if truthy delta
            then some r then_try (λ l'. emit_tool_delta l' st.tool_index delta)
            else some r)
          st.tool_index
          l.blocks.tool_states
          true
  delta-Tried l c st delta off slot v =
      let t = l.blocks.tool_states in
      let r = close_content_blocks l then_emit begin_tool st in
      let u = begun-Tried c r st.tool_index t true (begun l c st off slot v) in
      let step = λ (l' : Ledger). emit_tool_delta l' st.tool_index delta in
      elim (truthy delta)
        as (λ b. Tried c (if b then some r then_try step else some r) st.tool_index t true) [
          | true ↦
              try_passes c (some r) step st.tool_index t true true u
                (λ l' c' x e on v'. emit-Tried l' c' st.tool_index x delta e on v')
          | false ↦ u
        ]

  -- The end of a call that is not stopped.
  pub done-Tried :
      (l : Ledger) (c : Contract) (st : ToolState) (args : Option String)
      → st.stopped ≡ false
      → Slot l.blocks.tool_states st
      → IsStreaming l c l.blocks.tool_states
      → Tried c
          (some (close_content_blocks l then_emit begin_tool st)
            then_try emit_late st args
            then_try finish_once st)
          st.tool_index
          l.blocks.tool_states
          false
  done-Tried l c st args off slot v =
      let t = l.blocks.tool_states in
      let r = close_content_blocks l then_emit begin_tool st in
      let u = begun-Tried c r st.tool_index t true (begun l c st off slot v) in
      try_passes c (some r then_try emit_late st args) (finish_once st) st.tool_index t true false
        (try_passes c (some r) (emit_late st args) st.tool_index t true true u
          (λ l' c' x e on v'. emit_late-Tried st args l' c' x e on v'))
        (λ l' c' x e on v'. finish_once-Tried st l' c' x off e on v')
