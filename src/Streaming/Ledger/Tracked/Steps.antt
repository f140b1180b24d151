-- ===== src/Streaming/Ledger/Tracked/Steps.antt =====
-- The three ways to change a block keep the ledger tracked.
use luicode.Base.{
  ℕ, ◌+◌, nat_eq, true, false, [], ◌∷◌, ◌++◌, ◌≡◌, refl, sym, subst, arith, contains, Distinct,
  Distinct-without, contains-without, Option, none, some, String,
}
use luicode.Base.Dict.{lookup, has, lookup-insert, lookup-erase}
use luicode.Streaming.Events.{
  BlockIndex, unset, at, BlockType, text, thinking, tool_use, redacted_thinking, other,
  ContentBlock, text_block, thinking_block, tool_block, redacted_block, other_block, Delta, type_of,
}
use luicode.Streaming.Blocks.{StreamBlockLedger}
use luicode.Streaming.Ledger.{
  Ledger, StreamBlockState, block_state, delta_block, delta_text, drop_open, stop_block,
  clear_active, delta_at, add_part, close_state, marked_started,
}
use luicode.Streaming.Ledger.Calls.{start_next_block}
use luicode.Streaming.Ledger.Stack.{drop_open-without}
use luicode.Streaming.Contract.{Contract, storage_of, index_eq}
use luicode.Streaming.Ledger.Tracked.{
  IsTracked, opens, some_block-insert, some_block-lookup, opened_by, closed_by,
}

next_index-marked :
    (b : StreamBlockLedger) (i : ℕ) (block : ContentBlock)
    → (marked_started b i block).next_index ≡ b.next_index
next_index-marked b i (text_block s) = refl
next_index-marked b i (thinking_block s) = refl
next_index-marked b i (tool_block id name extra) = refl
next_index-marked b i (redacted_block d) = refl
next_index-marked b i (other_block t) = refl

pub next_index-start :
    (l : Ledger) (block : ContentBlock)
    → (start_next_block l block).0.blocks.next_index ≡ l.blocks.next_index + 1
unfolding start_next_block
next_index-start l block = omega (arith, next_index-marked _ l.blocks.next_index block)

-- A block that starts under the next index.
pub start-IsTracked :
    (l : Ledger) (c : Contract) (block : ContentBlock)
    → IsTracked l c
    → IsTracked
        (start_next_block l block).0
        (opened_by c l.blocks.next_index (storage_of (type_of block)))
unfolding start_next_block contains
start-IsTracked l c block v =
    let n = l.blocks.next_index in
    let kind = storage_of (type_of block) in
    record {
      opened = λ i. ground (arith, v.opened i, lookup-insert (at n) (at i) kind c.open_blocks);
      distinct = (ground (arith, v.opened n, v.within n), v.distinct);
      bounded = λ i h. ground (arith, next_index-start l block, v.bounded i);
      within = λ i h. ground (
        arith,
        next_index-start l block,
        v.within i,
        lookup-insert (at n) (at i) kind c.open_blocks,
      );
      kinds = λ i h. ground (
        arith,
        v.kinds i,
        lookup-insert (at n) (at i) kind c.open_blocks,
        lookup-insert n i (block_state n block) l.content_blocks,
      );
      named = ground (arith, lookup-insert (at n) unset kind c.open_blocks);
      seen = some_block-insert n (block_state n block) l.content_blocks;
      indexed = λ i.
          ground (arith, v.indexed i, lookup-insert n i (block_state n block) l.content_blocks);
    }

next_index-clear :
    (b : StreamBlockLedger) (s : StreamBlockState) (t : BlockType)
    → (clear_active b s t).next_index ≡ b.next_index
next_index-clear b s text = refl
next_index-clear b s thinking = refl
next_index-clear b s tool_use = refl
next_index-clear b s redacted_thinking = refl
next_index-clear b s (other t) = refl

close-IsTracked :
    (l : Ledger) (c : Contract) (i : ℕ) (o : Option StreamBlockState)
    → lookup i l.content_blocks ≡ o
    → opens c i ≡ true
    → IsTracked l c
    → IsTracked
        (close_state (record l { open_stack = drop_open i l.open_stack }) i o)
        (closed_by c (at i))
close-IsTracked l c i none e h v = absurd (ground (arith, v.kinds i h, e))
close-IsTracked l c i (some s) e h v =
    let closed = record s { is_open = false } in
    let stack = drop_open-without i l.open_stack v.distinct in
    record {
      opened = λ j. ground (
        arith,
        v.opened j,
        stack,
        contains-without j i l.open_stack,
        lookup-erase (at i) (at j) c.open_blocks,
      );
      distinct = subst Distinct (sym stack) (Distinct-without i l.open_stack v.distinct);
      bounded = λ j k. ground (arith, v.bounded j, next_index-clear l.blocks s s.block_type);
      within = λ j k. ground (
        arith,
        v.within j,
        next_index-clear l.blocks s s.block_type,
        lookup-erase (at i) (at j) c.open_blocks,
      );
      kinds = λ j k. ground (
        arith,
        v.kinds j,
        lookup-erase (at i) (at j) c.open_blocks,
        lookup-insert i j closed l.content_blocks,
      );
      named = ground (arith, v.named, lookup-erase (at i) unset c.open_blocks);
      seen = ground (
        arith,
        v.seen,
        some_block-insert i closed l.content_blocks,
        some_block-lookup i l.content_blocks,
        e,
      );
      indexed = λ j.
          ground (arith, v.indexed j, v.indexed i, e, lookup-insert i j closed l.content_blocks);
    }

stop_at-IsTracked :
    (l : Ledger) (c : Contract) (i : ℕ)
    → opens c i ≡ true
    → IsTracked l c
    → IsTracked (stop_block l (at i)).0 (closed_by c (at i))
unfolding stop_block
stop_at-IsTracked l c i h v = close-IsTracked l c i (lookup i l.content_blocks) refl h v

-- An open block that is stopped.
pub stop-IsTracked :
    (l : Ledger) (c : Contract) (i : BlockIndex)
    → has i c.open_blocks ≡ true
    → IsTracked l c
    → IsTracked (stop_block l i).0 (closed_by c i)
stop-IsTracked l c unset h v = absurd (ground (arith, h, v.named))
stop-IsTracked l c (at i) h v = stop_at-IsTracked l c i h v

added-IsTracked :
    (l : Ledger) (c : Contract) (i : ℕ) (s : StreamBlockState) (part : Option String)
    → lookup i l.content_blocks ≡ some s
    → IsTracked l c
    → IsTracked (add_part l i s part) c
added-IsTracked l c i s none e v = v
added-IsTracked l c i s (some part) e v =
    let grown = record s { parts = s.parts ++ part ∷ [] } in
    record {
      opened = v.opened;
      distinct = v.distinct;
      bounded = v.bounded;
      within = v.within;
      kinds = λ j k. ground (arith, v.kinds j, lookup-insert i j grown l.content_blocks, e);
      named = v.named;
      seen = ground (
        arith,
        v.seen,
        some_block-insert i grown l.content_blocks,
        some_block-lookup i l.content_blocks,
        e,
      );
      indexed = λ j.
          ground (arith, v.indexed j, v.indexed i, e, lookup-insert i j grown l.content_blocks);
    }

delta_at-IsTracked :
    (l : Ledger) (c : Contract) (i : ℕ) (o : Option StreamBlockState) (d : Delta)
    → lookup i l.content_blocks ≡ o
    → IsTracked l c
    → IsTracked (delta_at l i o d) c
delta_at-IsTracked l c i none d e v = v
delta_at-IsTracked l c i (some s) d e v = added-IsTracked l c i s (delta_text s.block_type d) e v

-- A delta to any block.
pub delta-IsTracked :
    (l : Ledger) (c : Contract) (i : BlockIndex) (d : Delta)
    → IsTracked l c
    → IsTracked (delta_block l i d).0 c
unfolding delta_block
delta-IsTracked l c unset d v = v
delta-IsTracked l c (at i) d v = delta_at-IsTracked l c i (lookup i l.content_blocks) d refl v
