-- ===== src/Streaming/Ledger/ToolCalls.antt =====
-- The methods of the ledger for the blocks of tool calls.
use luicode.Base.{
  ℕ, nat_eq, Bool, true, false, List, if◌then◌else◌, ◌≡◌, refl, ap, sym, subst, ◌∙◌, Option, none,
  some, String, is_some, ◌⊎◌,
}
use luicode.Base.Dict.{Dict, lookup, insert, erase}
use luicode.Base.Json.{Fields}
use luicode.Streaming.Events.{at, SseEvent, tool_block, input_json_delta, content_block_stop}
use luicode.Streaming.Blocks.{StreamBlockLedger, ToolBlockState, some_fields}
use luicode.Streaming.Ledger.{Ledger, delta_block, stop_block}
use luicode.Streaming.Ledger.Calls.{
  with_tool, started_tool, start_next_block, start_tool_block, emit_tool_delta, stop_tool_block,
}
use luicode.Streaming.Contract.{Contract, in_tool, index_eq}
use luicode.Streaming.Ledger.Tracked.{closed_by, other_blocks-IsTracked}
use luicode.Streaming.Ledger.Tracked.Flags.{blocks-stop, check-stop}
use luicode.Streaming.Ledger.Tracked.Steps.{stop-IsTracked}
use luicode.Streaming.Ledger.Named.{IsNamed}
use luicode.Streaming.Ledger.Named.Stops.{stop_tool-IsNamed}
use luicode.Streaming.Ledger.Named.Starts.{start_tool-IsNamed}
use luicode.Streaming.Ledger.Protocol.{
  IsStreaming, Passes, passes_weaken, delta_passes, start_passes, check_one, free_next,
}
use luicode.Streaming.Responses.{finish_tool}

-- The tools of the blocks are these.
abbrev pub ToolsAre : Dict ℕ ToolBlockState → StreamBlockLedger → Type 0
ToolsAre t b = b.tool_states ≡ t

abbrev pub Idle : ℕ → Dict ℕ ToolBlockState → Type 0
Idle k states =
    (lookup k states ≡ none)
    ⊎ ((t : ToolBlockState) × (lookup k states ≡ some t) × (t.started ≡ false))

started_tool_started :
    (i : ℕ) (id name : String) (extra : Option Fields) (o : Option ToolBlockState)
    → ((started_tool i id name extra o).started ≡ true)
      × ((started_tool i id name extra o).block_index ≡ at i)
started_tool_started i id name extra none = (refl, refl)
started_tool_started i id name extra (some s) = (refl, refl)

stop_tool_found :
    (l : Ledger) (k : ℕ) (s : ToolBlockState)
    → lookup k l.blocks.tool_states ≡ some s
    → stop_tool_block l k ≡ some (stop_block l s.block_index)
unfolding stop_tool_block stop_block
stop_tool_found l k s e = rw e

finish_tool_found :
    (l : Ledger) (k : ℕ) (s : ToolBlockState) (r : Ledger × List SseEvent)
    → stop_tool_block l k ≡ some r
    → lookup k r.0.blocks.tool_states ≡ some s
    → finish_tool l k ≡ some (with_tool k (record s { started = false }) r.0, r.1)
unfolding finish_tool
finish_tool_found l k s r h e = rw (h, e)

module _ (blank : String → Bool) where
  pub start_tool_passes :
      (l : Ledger) (c : Contract) (k : ℕ) (id name : String) (extra : Option Fields)
      → Idle k l.blocks.tool_states
      → IsStreaming l c l.blocks.tool_states
      → (s : ToolBlockState) × (s.started ≡ true)
        × Passes blank c
            (start_tool_block l k id name extra)
            (insert k s l.blocks.tool_states)
            (ToolsAre (insert k s l.blocks.tool_states))
  unfolding start_tool_block start_next_block
  start_tool_passes l c k id name extra idle v =
      let n = l.blocks.next_index in
      let s = started_tool n id name extra (lookup k l.blocks.tool_states) in
      let h = started_tool_started n id name extra (lookup k l.blocks.tool_states) in
      let t = insert k s l.blocks.tool_states in
      let l' = with_tool k s l in
      let block = tool_block id name (if some_fields extra then extra else none) in
      let r = start_next_block l' block in
      (
        s,
        h.0,
        passes_weaken blank c r t (λ b. b ≡ r.0.blocks) (ToolsAre t) (λ e. refl)
            (start_passes blank l' c t block refl refl
              (other_blocks-IsTracked l c l'.blocks refl v.tracked)
              (start_tool-IsNamed l.blocks c.open_blocks v.named n r.0.blocks.next_index k s
                (free_next l c v.tracked) h.0 h.1 idle)),
      )

  -- Arguments for a started call.
  pub emit_tool_delta_passes :
      (l : Ledger) (c : Contract) (k : ℕ) (s : ToolBlockState) (json : String)
      → lookup k l.blocks.tool_states ≡ some s
      → s.started ≡ true
      → IsStreaming l c l.blocks.tool_states
      → (r : Ledger × List SseEvent) × (emit_tool_delta l k json ≡ some r)
        × Passes blank c r l.blocks.tool_states (λ b. b ≡ l.blocks)
  unfolding emit_tool_delta delta_block
  emit_tool_delta_passes l c k s json e on v = (
    delta_block l s.block_index (input_json_delta json),
    rw e,
    delta_passes blank l c l.blocks.tool_states s.block_index in_tool (input_json_delta json)
        (v.named.tools k s e on) refl v,
  )

  -- A started call is finished: its block is stopped, and its state is not started any more.
  pub finish_tool_passes :
      (l : Ledger) (c : Contract) (k : ℕ) (s : ToolBlockState)
      → lookup k l.blocks.tool_states ≡ some s
      → s.started ≡ true
      → IsStreaming l c l.blocks.tool_states
      → (r : Ledger × List SseEvent) × (finish_tool l k ≡ some r)
        × Passes blank c r
            (insert k (record s { started = false }) l.blocks.tool_states)
            (ToolsAre (insert k (record s { started = false }) l.blocks.tool_states))
  unfolding finish_tool stop_block
  finish_tool_passes l c k s e on v =
      let i = s.block_index in
      let r = stop_block l i in
      let s' : ToolBlockState = record s { started = false } in
      let t = insert k s' l.blocks.tool_states in
      let own = v.named.tools k s e on in
      let same = blocks-stop l c i in_tool own v.tracked in
      let l' = with_tool k s' r.0 in
      let tracked = stop-IsTracked l c i (ap is_some own) v.tracked in
      (
        (l', r.1),
        finish_tool_found l k s r (stop_tool_found l k s e)
            (ap (λ b. lookup k b.tool_states) same ∙ e),
        record {
          after = closed_by c i;
          checked =
              check_one blank c (closed_by c i) (content_block_stop i)
                (check-stop blank c i (ap is_some own));
          streaming = record {
            tracked = other_blocks-IsTracked r.0 (closed_by c i) l'.blocks refl tracked;
            named =
                subst (λ b. IsNamed (record b { tool_states = t }) (erase i c.open_blocks))
                  (sym same) (stop_tool-IsNamed l.blocks c.open_blocks v.named k s s' e on refl);
          };
          holds = ap (λ b. insert k s' b.tool_states) same;
        },
      )
