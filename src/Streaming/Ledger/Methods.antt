-- ===== src/Streaming/Ledger/Methods.antt =====
-- The methods of the ledger that open and close the blocks of a message as they are needed.
use luicode.Base.{
  ℕ, nat_eq, Bool, true, false, List, [], ◌∷◌, if◌then◌else◌, ◌≡◌, refl, ap, sym, subst, ◌∙◌, arith,
  String,
}
use luicode.Base.Dict.{Dict, lookup, erase, values}
use luicode.Streaming.Events.{BlockIndex, SseEvent}
use luicode.Streaming.Blocks.{StreamBlockLedger, ToolBlockState}
use luicode.Streaming.Ledger.{Ledger, stop_block}
use luicode.Streaming.Ledger.Calls.{
  quiet, stop_text_block, stop_thinking_block, start_text_block, start_thinking_block, stop_text_if,
  stop_thinking_if, start_text_unless, start_thinking_unless, ensure_text_block,
  ensure_thinking_block, close_content_blocks, close_tools, close_all_blocks,
}
use luicode.Streaming.Contract.{
  Contract, Storage, in_text, in_thinking, in_tool, no_delta, index_eq, same_index_iff,
}
use luicode.Streaming.Ledger.Named.{IsNamed, Owner}
use luicode.Streaming.Ledger.Named.Pops.{pop_tool-IsNamed, first_stored}
use luicode.Streaming.Ledger.Protocol.{
  IsStreaming, Passes, passes_quiet, passes_then, passes_weaken, stop_passes, stop_text_passes,
  stop_thinking_passes, start_text_passes, start_thinking_passes, TextOpen, ThinkingOpen,
}

pub no_blocks_named :
    (b : StreamBlockLedger) (d : Dict BlockIndex Storage)
    → IsNamed (record b { tool_states = [] }) d
    → b.text_started ≡ false
    → b.thinking_started ≡ false
    → d ≡ []
unfolding lookup
no_blocks_named b [] v no_text no_thinking = refl
no_blocks_named b ((i, in_text) ∷ d) v no_text no_thinking =
    ground (arith, v.texts i, no_text, same_index_iff i i)
no_blocks_named b ((i, in_thinking) ∷ d) v no_text no_thinking =
    ground (arith, v.thinkings i, no_thinking, same_index_iff i i)
no_blocks_named b ((i, in_tool) ∷ d) v no_text no_thinking =
    let o : Owner [] i = v.owners i (ground (arith, same_index_iff i i)) in ground (arith, o.stored)
no_blocks_named b ((i, no_delta) ∷ d) v no_text no_thinking =
    ground (arith, v.plain i, same_index_iff i i)

-- A text block is open and no thinking block.
abbrev pub TextOnly : StreamBlockLedger → StreamBlockLedger → Type 0
TextOnly b b' =
    (b'.tool_states ≡ b.tool_states) × (b'.text_started ≡ true) × (b'.thinking_started ≡ false)

abbrev without_text : StreamBlockLedger → StreamBlockLedger
without_text b = record b { text_started = false }

-- No text or thinking block is open.
abbrev pub Closed : StreamBlockLedger → Type 0
Closed b = (b.text_started ≡ false) × (b.thinking_started ≡ false)

module _ (blank : String → Bool) where
  pub if_passes :
      (c : Contract) (x : Bool) (r r' : Ledger × List SseEvent) (t : Dict ℕ ToolBlockState)
      (P : StreamBlockLedger → Type 0)
      → (x ≡ true → Passes blank c r t P)
      → (x ≡ false → Passes blank c r' t P)
      → Passes blank c (if x then r else r') t P
  if_passes c true r r' t P on off = on refl
  if_passes c false r r' t P on off = off refl

  stop_text_if_passes :
      (l : Ledger) (c : Contract) (t : Dict ℕ ToolBlockState)
      → IsStreaming l c t
      → Passes blank c (stop_text_if l) t (λ b. b ≡ record l.blocks { text_started = false })
  stop_text_if_passes l c t v =
      let P = λ (b : StreamBlockLedger). b ≡ record l.blocks { text_started = false } in
      if_passes c l.blocks.text_started (stop_text_block l) (quiet l) t P
        (λ on. stop_text_passes blank l c t on v)
        (λ off. passes_quiet blank l c t P v (ap (λ x. record l.blocks { text_started = x }) off))

  stop_thinking_if_passes :
      (l : Ledger) (c : Contract) (t : Dict ℕ ToolBlockState)
      → IsStreaming l c t
      → Passes blank c
          (stop_thinking_if l)
          t
          (λ b. b ≡ record l.blocks { thinking_started = false })
  stop_thinking_if_passes l c t v =
      let P = λ (b : StreamBlockLedger). b ≡ record l.blocks { thinking_started = false } in
      if_passes c l.blocks.thinking_started (stop_thinking_block l) (quiet l) t P
        (λ on. stop_thinking_passes blank l c t on v)
        (λ off.
          passes_quiet blank l c t P v (ap (λ x. record l.blocks { thinking_started = x }) off))

  -- The open text and thinking blocks are closed, and nothing else changes.
  pub close_content_blocks_passes :
      (l : Ledger) (c : Contract) (t : Dict ℕ ToolBlockState)
      → IsStreaming l c t
      → Passes blank c
          (close_content_blocks l)
          t
          (λ b. b ≡ record l.blocks { text_started = false; thinking_started = false })
  unfolding close_content_blocks
  close_content_blocks_passes l c t v =
      let P = λ (b : StreamBlockLedger). b ≡ record l.blocks { thinking_started = false } in
      let Q = λ (b : StreamBlockLedger).
        b ≡ record l.blocks { text_started = false; thinking_started = false } in
      passes_then blank c (stop_thinking_if l) stop_text_if t t P Q
        (stop_thinking_if_passes l c t v)
        (λ c' v' e.
          let l' = (stop_thinking_if l).0 in
          passes_weaken blank c' (stop_text_if l') t
            (λ b. b ≡ record l'.blocks { text_started = false }) Q (λ h. h ∙ ap without_text e)
            (stop_text_if_passes l' c' t v'))

  pub ensure_thinking_block_passes :
      (l : Ledger) (c : Contract) (t : Dict ℕ ToolBlockState)
      → IsStreaming l c t
      → Passes blank c (ensure_thinking_block l) t (ThinkingOpen l.blocks)
  unfolding ensure_thinking_block
  ensure_thinking_block_passes l c t v =
      let P = λ (b : StreamBlockLedger). b ≡ record l.blocks { text_started = false } in
      passes_then blank c (stop_text_if l) start_thinking_unless t t P (ThinkingOpen l.blocks)
        (stop_text_if_passes l c t v)
        (λ c' v' e.
          let l' = (stop_text_if l).0 in
          let same = ap (λ b. b.tool_states) e in
          if_passes c' l'.blocks.thinking_started (quiet l') (start_thinking_block l') t
            (ThinkingOpen l.blocks)
            (λ on. passes_quiet blank l' c' t (ThinkingOpen l.blocks) v' (same, on))
            (λ off.
              passes_weaken blank c' (start_thinking_block l') t (ThinkingOpen l'.blocks)
                (ThinkingOpen l.blocks) (λ h. (h.0 ∙ same, h.1))
                (start_thinking_passes blank l' c' t off v')))

  pub ensure_text_block_passes :
      (empty : blank "" ≡ true) (l : Ledger) (c : Contract) (t : Dict ℕ ToolBlockState)
      → IsStreaming l c t
      → Passes blank c (ensure_text_block l) t (TextOnly l.blocks)
  unfolding ensure_text_block
  ensure_text_block_passes empty l c t v =
      let P = λ (b : StreamBlockLedger). b ≡ record l.blocks { thinking_started = false } in
      passes_then blank c (stop_thinking_if l) start_text_unless t t P (TextOnly l.blocks)
        (stop_thinking_if_passes l c t v)
        (λ c' v' e.
          let l' = (stop_thinking_if l).0 in
          let same = ap (λ b. b.tool_states) e in
          let off' = ap (λ b. b.thinking_started) e in
          if_passes c' l'.blocks.text_started (quiet l') (start_text_block l') t (TextOnly l.blocks)
            (λ on. passes_quiet blank l' c' t (TextOnly l.blocks) v' (same, on, off'))
            (λ off.
              passes_weaken blank c' (start_text_block l') t (TextOpen l'.blocks)
                (TextOnly l.blocks) (λ h. (h.0 ∙ same, h.1, h.2 ∙ off'))
                (start_text_passes blank empty l' c' t off v')))

  close_tool_passes :
      (l : Ledger) (c : Contract) (k : ℕ) (s : ToolBlockState) (rest : Dict ℕ ToolBlockState)
      → IsStreaming l c ((k, s) ∷ rest)
      → Closed l.blocks
      → Passes blank c (if s.started then stop_block l s.block_index else quiet l) rest Closed
  close_tool_passes l c k s rest v h =
      let left = pop_tool-IsNamed l.blocks k s rest c.open_blocks v.named h.0 h.1 in
      let left_of = λ (x : Bool).
        IsNamed (record l.blocks { tool_states = rest })
          (if x then erase s.block_index c.open_blocks else c.open_blocks) in
      if_passes c s.started (stop_block l s.block_index) (quiet l) rest Closed
        (λ on.
          passes_weaken blank c (stop_block l s.block_index) rest (λ b. b ≡ l.blocks) Closed
            (λ e. subst Closed (sym e) h)
            (stop_passes blank l c rest s.block_index in_tool
              (v.named.tools k s (first_stored k s rest) on) v.tracked (subst left_of on left)))
        (λ off.
          passes_quiet blank l c rest Closed
            (record { tracked = v.tracked; named = subst left_of off left }) h)

  close_tools_passes :
      (d : Dict ℕ ToolBlockState) (l : Ledger) (c : Contract)
      → IsStreaming l c d
      → Closed l.blocks
      → Passes blank c (close_tools (values d) l) [] Closed
  unfolding close_tools
  close_tools_passes [] l c v h = passes_quiet blank l c [] Closed v h
  close_tools_passes ((k, s) ∷ rest) l c v h =
      passes_then blank c (if s.started then stop_block l s.block_index else quiet l)
        (close_tools (values rest)) rest [] Closed Closed (close_tool_passes l c k s rest v h)
        (λ c' v' h'.
          close_tools_passes rest (if s.started then stop_block l s.block_index else quiet l).0 c'
            v' h')

  -- All blocks are closed.
  pub close_all_blocks_passes :
      (l : Ledger) (c : Contract)
      → IsStreaming l c l.blocks.tool_states
      → Passes blank c (close_all_blocks l) [] Closed
  unfolding close_all_blocks
  close_all_blocks_passes l c v =
      let t = l.blocks.tool_states in
      let P = λ (b : StreamBlockLedger).
        b ≡ record l.blocks { text_started = false; thinking_started = false } in
      let l' = (close_content_blocks l).0 in
      passes_then blank c (close_content_blocks l)
        (λ x. close_tools (values x.blocks.tool_states) x) t [] P Closed
        (close_content_blocks_passes l c t v)
        (λ c' v' e.
          close_tools_passes l'.blocks.tool_states l' c'
            (subst (IsStreaming l' c') (sym (ap (λ b. b.tool_states) e)) v')
            (ap (λ b. b.text_started) e, ap (λ b. b.thinking_started) e))
