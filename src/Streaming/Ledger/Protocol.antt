-- ===== src/Streaming/Ledger/Protocol.antt =====
-- What the methods of the ledger emit passes the contract's checker, which goes on with the ledger.
use luicode.Base.{
  ℕ, nat_eq, Bool, true, false, List, [], ◌∷◌, ◌≡◌, refl, ap, sym, subst, ◌∙◌, arith, Option, none,
  some, String, is_some,
}
use luicode.Base.Dict.{Dict, lookup, insert, erase, lookup-insert}
use luicode.Streaming.Events.{
  BlockIndex, at, ContentBlock, text_block, thinking_block, redacted_block, Delta, SseEvent,
  content_block_start, content_block_delta, content_block_stop, type_of,
}
use luicode.Streaming.Blocks.{StreamBlockLedger, ToolBlockState}
use luicode.Streaming.Ledger.{Ledger, delta_block, stop_block}
use luicode.Streaming.Ledger.Calls.{
  start_next_block, ◌then_emit◌, quiet, stop_text_block, stop_thinking_block, start_text_block,
  start_thinking_block,
}
use luicode.Streaming.Contract.{
  Contract, Storage, in_text, in_thinking, no_delta, storage_of, storage, allowed, accepts,
  index_eq, same_index_iff, check_event, check_events, and_check,
}
use luicode.Streaming.Ledger.Stack.{check_events-append}
use luicode.Streaming.Ledger.Tracked.{IsTracked, opened_by, closed_by, other_blocks-IsTracked}
use luicode.Streaming.Ledger.Tracked.Flags.{
  cleared, blocks-stop, blocks-delta, check-start, check-stop, check-delta,
}
use luicode.Streaming.Ledger.Tracked.Steps.{start-IsTracked, stop-IsTracked, delta-IsTracked}
use luicode.Streaming.Ledger.Named.{IsNamed}
use luicode.Streaming.Ledger.Named.Stops.{
  stop_text-IsNamed, stop_thinking-IsNamed, pass_through-IsNamed,
}
use luicode.Streaming.Ledger.Named.Starts.{start_text-IsNamed, start_thinking-IsNamed}

-- The checker's state follows the ledger, the tools `t` counted as those that the ledger has.
pub record IsStreaming (l : Ledger) (c : Contract) (t : Dict ℕ ToolBlockState) : Type 0 where
  pub tracked : IsTracked l c
  pub named : IsNamed (record l.blocks { tool_states = t }) c.open_blocks

pub free_next :
    (l : Ledger) (c : Contract)
    → IsTracked l c
    → lookup (at l.blocks.next_index) c.open_blocks ≡ none
free_next l c v = ground (arith, v.within l.blocks.next_index)

lookup-inserted :
    (n : ℕ) (kind : Storage) (d : Dict BlockIndex Storage)
    → lookup (at n) (insert (at n) kind d) ≡ some kind
lookup-inserted n kind d =
    ground (arith, lookup-insert (at n) (at n) kind d, same_index_iff (at n) (at n))

-- The blocks that only differ in the open text and thinking block.
abbrev pub SameTools : StreamBlockLedger → StreamBlockLedger → Type 0
SameTools b b' = b'.tool_states ≡ b.tool_states

-- How a text block is left after a call.
abbrev pub TextOpen : StreamBlockLedger → StreamBlockLedger → Type 0
TextOpen b b' =
    (b'.tool_states ≡ b.tool_states)
    × (b'.text_started ≡ true)
    × (b'.thinking_started ≡ b.thinking_started)

abbrev pub ThinkingOpen : StreamBlockLedger → StreamBlockLedger → Type 0
ThinkingOpen b b' = (b'.tool_states ≡ b.tool_states) × (b'.thinking_started ≡ true)

module _ (blank : String → Bool) where
  -- The events of a call pass, and `P` holds of the blocks then.
  pub record Passes (c : Contract) (r : Ledger × List SseEvent) (t : Dict ℕ ToolBlockState)
      (P : StreamBlockLedger → Type 0) : Type 0 where
    pub after : Contract
    pub checked : check_events blank c r.1 ≡ some after
    pub streaming : IsStreaming r.0 after t
    pub holds : P r.0.blocks

  pub passes_quiet :
      (l : Ledger) (c : Contract) (t : Dict ℕ ToolBlockState) (P : StreamBlockLedger → Type 0)
      → IsStreaming l c t
      → P l.blocks
      → Passes c (quiet l) t P
  unfolding check_events
  passes_quiet l c t P v p = record { after = c; checked = refl; streaming = v; holds = p }

  pub passes_after :
      (c : Contract) (r : Ledger × List SseEvent) (f : Ledger → Ledger × List SseEvent)
      (t t' : Dict ℕ ToolBlockState) (P Q : StreamBlockLedger → Type 0) (p : Passes c r t P)
      → Passes p.after (f r.0) t' Q
      → Passes c (r then_emit f) t' Q
  passes_after c r f t t' P Q p q = record {
    after = q.after;
    checked =
        check_events-append blank c r.1 (f r.0).1
        ∙ ap (λ o. and_check blank o (λ c'. check_events blank c' (f r.0).1)) p.checked
        ∙ q.checked;
    streaming = q.streaming;
    holds = q.holds;
  }

  pub passes_then :
      (c : Contract) (r : Ledger × List SseEvent) (f : Ledger → Ledger × List SseEvent)
      (t t' : Dict ℕ ToolBlockState) (P Q : StreamBlockLedger → Type 0)
      → Passes c r t P
      → ((c' : Contract) → IsStreaming r.0 c' t → P r.0.blocks → Passes c' (f r.0) t' Q)
      → Passes c (r then_emit f) t' Q
  passes_then c r f t t' P Q p next =
      passes_after c r f t t' P Q p (next p.after p.streaming p.holds)

  pub check_one :
      (c c' : Contract) (e : SseEvent)
      → check_event blank c e ≡ some c'
      → check_events blank c (e ∷ []) ≡ some c'
  unfolding check_events
  check_one c c' e h = rw h

  -- A delta of the right kind for an open block.
  pub delta_passes :
      (l : Ledger) (c : Contract) (t : Dict ℕ ToolBlockState) (i : BlockIndex) (kind : Storage)
      (d : Delta)
      → lookup i c.open_blocks ≡ some kind
      → accepts kind d ≡ true
      → IsStreaming l c t
      → Passes c (delta_block l i d) t (λ b. b ≡ l.blocks)
  unfolding delta_block
  delta_passes l c t i kind d h a v = record {
    after = c;
    checked = check_one c c (content_block_delta i d) (check-delta blank c i kind d h a);
    streaming = record {
      tracked = delta-IsTracked l c i d v.tracked;
      named =
          subst (λ b. IsNamed (record b { tool_states = t }) c.open_blocks)
            (sym (blocks-delta l i d)) v.named;
    };
    holds = blocks-delta l i d;
  }

  -- The stop of an open block, when the blocks that are left have their names.
  pub stop_passes :
      (l : Ledger) (c : Contract) (t : Dict ℕ ToolBlockState) (i : BlockIndex) (kind : Storage)
      → lookup i c.open_blocks ≡ some kind
      → IsTracked l c
      → IsNamed (record (cleared l.blocks i kind) { tool_states = t }) (erase i c.open_blocks)
      → Passes c (stop_block l i) t (λ b. b ≡ cleared l.blocks i kind)
  unfolding stop_block
  stop_passes l c t i kind h v n = record {
    after = closed_by c i;
    checked =
        check_one c (closed_by c i) (content_block_stop i) (check-stop blank c i (ap is_some h));
    streaming = record {
      tracked = stop-IsTracked l c i (ap is_some h) v;
      named =
          subst (λ b. IsNamed (record b { tool_states = t }) (erase i c.open_blocks))
            (sym (blocks-stop l c i kind h v)) n;
    };
    holds = blocks-stop l c i kind h v;
  }

  pub stop_text_passes :
      (l : Ledger) (c : Contract) (t : Dict ℕ ToolBlockState)
      → l.blocks.text_started ≡ true
      → IsStreaming l c t
      → Passes c (stop_text_block l) t (λ b. b ≡ record l.blocks { text_started = false })
  stop_text_passes l c t on v =
      let b = record l.blocks { text_started = false } in
      stop_passes (record l { blocks = b }) c t l.blocks.text_index in_text (v.named.text on)
        (other_blocks-IsTracked l c b refl v.tracked)
        (stop_text-IsNamed (record l.blocks { tool_states = t }) c.open_blocks v.named on)

  pub stop_thinking_passes :
      (l : Ledger) (c : Contract) (t : Dict ℕ ToolBlockState)
      → l.blocks.thinking_started ≡ true
      → IsStreaming l c t
      → Passes c (stop_thinking_block l) t (λ b. b ≡ record l.blocks { thinking_started = false })
  stop_thinking_passes l c t on v =
      let b = record l.blocks { thinking_started = false } in
      stop_passes (record l { blocks = b }) c t l.blocks.thinking_index in_thinking
        (v.named.thinking on) (other_blocks-IsTracked l c b refl v.tracked)
        (stop_thinking-IsNamed (record l.blocks { tool_states = t }) c.open_blocks v.named on)

  pub start_passes :
      (l : Ledger) (c : Contract) (t : Dict ℕ ToolBlockState) (block : ContentBlock)
      → allowed (type_of block) ≡ true
      → storage blank block ≡ storage_of (type_of block)
      → IsTracked l c
      → IsNamed
          (record (start_next_block l block).0.blocks { tool_states = t })
          (insert (at l.blocks.next_index) (storage_of (type_of block)) c.open_blocks)
      → Passes c (start_next_block l block) t (λ b. b ≡ (start_next_block l block).0.blocks)
  unfolding start_next_block
  start_passes l c t block a e v n =
      let after = opened_by c l.blocks.next_index (storage_of (type_of block)) in
      record {
        after = after;
        checked =
            check_one c after (content_block_start (at l.blocks.next_index) block)
              (check-start blank l c block a e v);
        streaming = record { tracked = start-IsTracked l c block v; named = n };
        holds = refl;
      }

  pub passes_weaken :
      (c : Contract) (r : Ledger × List SseEvent) (t : Dict ℕ ToolBlockState)
      (P Q : StreamBlockLedger → Type 0)
      → (P r.0.blocks → Q r.0.blocks)
      → Passes c r t P
      → Passes c r t Q
  passes_weaken c r t P Q f p = record {
    after = p.after;
    checked = p.checked;
    streaming = p.streaming;
    holds = f p.holds;
  }

  -- An empty text counts as blank.
  module _ (empty : blank "" ≡ true) where
    pub start_text_passes :
        (l : Ledger) (c : Contract) (t : Dict ℕ ToolBlockState)
        → l.blocks.text_started ≡ false
        → IsStreaming l c t
        → Passes c (start_text_block l) t (TextOpen l.blocks)
    unfolding start_next_block
    start_text_passes l c t off v =
        let r = start_text_block l in
        passes_weaken c r t (λ b. b ≡ r.0.blocks) (TextOpen l.blocks) (λ e. (refl, refl, refl))
          (start_passes l c t (text_block "") refl (rw empty) v.tracked (
            start_text-IsNamed (record l.blocks { tool_states = t }) c.open_blocks v.named
              (at l.blocks.next_index) r.0.blocks.next_index (free_next l c v.tracked) off))

  pub start_thinking_passes :
      (l : Ledger) (c : Contract) (t : Dict ℕ ToolBlockState)
      → l.blocks.thinking_started ≡ false
      → IsStreaming l c t
      → Passes c (start_thinking_block l) t (ThinkingOpen l.blocks)
  unfolding start_next_block
  start_thinking_passes l c t off v =
      let r = start_thinking_block l in
      passes_weaken c r t (λ b. b ≡ r.0.blocks) (ThinkingOpen l.blocks) (λ e. (refl, refl))
        (start_passes l c t (thinking_block "") refl refl v.tracked (
          start_thinking-IsNamed (record l.blocks { tool_states = t }) c.open_blocks v.named
            (at l.blocks.next_index) r.0.blocks.next_index (free_next l c v.tracked) off))

  check_two :
      (c c' c'' : Contract) (e f : SseEvent)
      → check_event blank c e ≡ some c'
      → check_event blank c' f ≡ some c''
      → check_events blank c (e ∷ f ∷ []) ≡ some c''
  unfolding check_events
  check_two c c' c'' e f h k =
      ap (λ o. and_check blank o (λ x. check_events blank x (f ∷ []))) h ∙ check_one c' c'' f k

  -- A block that is started and stopped at once.
  pub redacted_passes :
      (l : Ledger) (c : Contract) (t : Dict ℕ ToolBlockState) (hidden : Option String)
      → IsStreaming l c t
      → Passes c
          (start_next_block l (redacted_block hidden)
            then_emit (λ l'. stop_block l' (at l.blocks.next_index)))
          t
          (SameTools l.blocks)
  unfolding start_next_block stop_block
  redacted_passes l c t hidden v =
      let n = l.blocks.next_index in
      let block = redacted_block hidden in
      let begun = opened_by c n no_delta in
      let l' = (start_next_block l block).0 in
      let found = lookup-inserted n no_delta c.open_blocks in
      let tracked = start-IsTracked l c block v.tracked in
      let same = blocks-stop l' begun (at n) no_delta found tracked in
      record {
        after = closed_by begun (at n);
        checked =
            check_two c begun (closed_by begun (at n)) (content_block_start (at n) block)
              (content_block_stop (at n)) (check-start blank l c block refl refl v.tracked)
              (check-stop blank begun (at n) (ap is_some found));
        streaming = record {
          tracked = stop-IsTracked l' begun (at n) (ap is_some found) tracked;
          named =
              subst (λ b. IsNamed (record b { tool_states = t }) (erase (at n) begun.open_blocks))
                (sym same)
                (pass_through-IsNamed (record l.blocks { tool_states = t }) c.open_blocks v.named
                  (at n) l'.blocks.next_index (free_next l c v.tracked));
        };
        holds = ap (λ b. b.tool_states) same;
      }
