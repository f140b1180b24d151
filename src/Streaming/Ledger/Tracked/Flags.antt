-- ===== src/Streaming/Ledger/Tracked/Flags.antt =====
-- What the three ways to change a block do to the names of the blocks, and what the checker answers.
use luicode.Base.{
  ℕ, nat_eq, nat_beq_iff, Bool, true, not, ◌&&◌, ◌≡◌, refl, ap, sym, ◌∙◌, arith, Option, none, some,
  String, is_some,
}
use luicode.Base.Dict.{lookup, has}
use luicode.Streaming.Events.{
  BlockIndex, unset, at, BlockType, text, thinking, tool_use, redacted_thinking, other,
  ContentBlock, Delta, content_block_start, content_block_delta, content_block_stop, type_of,
}
use luicode.Streaming.Blocks.{StreamBlockLedger}
use luicode.Streaming.Ledger.{
  Ledger, StreamBlockState, delta_block, delta_text, drop_open, stop_block, clear_active, delta_at,
  add_part, close_state,
}
use luicode.Streaming.Contract.{
  Contract, Storage, in_text, in_thinking, in_tool, no_delta, storage_of, storage, allowed, accepts,
  index_eq, same_index, check_event,
}
use luicode.Streaming.Ledger.Tracked.{IsTracked, kind_at, is_indexed, opened_by, closed_by}

-- Which flag a stop clears.
abbrev pub cleared : StreamBlockLedger → BlockIndex → Storage → StreamBlockLedger
cleared b i in_text = record b { text_started = b.text_started && not (same_index b.text_index i) }
cleared b i in_thinking = record b {
  thinking_started = b.thinking_started && not (same_index b.thinking_index i);
}
cleared b i in_tool = b
cleared b i no_delta = b

clear_active-cleared :
    (b : StreamBlockLedger) (s : StreamBlockState) (t : BlockType) (i : ℕ)
    → s.index ≡ i
    → clear_active b s t ≡ cleared b (at i) (storage_of t)
clear_active-cleared b s text i h = ground (arith, h)
clear_active-cleared b s thinking i h = ground (arith, h)
clear_active-cleared b s tool_use i h = refl
clear_active-cleared b s redacted_thinking i h = refl
clear_active-cleared b s (other t) i h = refl

close_state-blocks :
    (l : Ledger) (i : ℕ) (o : Option StreamBlockState) (kind : Storage)
    → is_indexed i o ≡ true
    → kind_at o ≡ some kind
    → (close_state (record l { open_stack = drop_open i l.open_stack }) i o).blocks
      ≡ cleared l.blocks (at i) kind
close_state-blocks l i none kind x h = ground (arith, h)
close_state-blocks l i (some s) kind x h =
    ground (arith, x, h, clear_active-cleared l.blocks s s.block_type i, nat_beq_iff s.index i)

stop_at-blocks :
    (l : Ledger) (c : Contract) (i : ℕ) (kind : Storage)
    → lookup (at i) c.open_blocks ≡ some kind
    → IsTracked l c
    → (stop_block l (at i)).0.blocks ≡ cleared l.blocks (at i) kind
unfolding stop_block
stop_at-blocks l c i kind h v =
    close_state-blocks l i (lookup i l.content_blocks) kind (v.indexed i)
      (sym (v.kinds i (ap is_some h)) ∙ h)

pub blocks-stop :
    (l : Ledger) (c : Contract) (i : BlockIndex) (kind : Storage)
    → lookup i c.open_blocks ≡ some kind
    → IsTracked l c
    → (stop_block l i).0.blocks ≡ cleared l.blocks i kind
blocks-stop l c unset kind h v = absurd (ground (arith, h, v.named))
blocks-stop l c (at i) kind h v = stop_at-blocks l c i kind h v

added-blocks :
    (l : Ledger) (i : ℕ) (s : StreamBlockState) (part : Option String)
    → (add_part l i s part).blocks ≡ l.blocks
added-blocks l i s none = refl
added-blocks l i s (some part) = refl

delta_at-blocks :
    (l : Ledger) (i : ℕ) (o : Option StreamBlockState) (d : Delta)
    → (delta_at l i o d).blocks ≡ l.blocks
delta_at-blocks l i none d = refl
delta_at-blocks l i (some s) d = added-blocks l i s (delta_text s.block_type d)

pub blocks-delta :
    (l : Ledger) (i : BlockIndex) (d : Delta) → (delta_block l i d).0.blocks ≡ l.blocks
unfolding delta_block
blocks-delta l unset d = refl
blocks-delta l (at i) d = delta_at-blocks l i (lookup i l.content_blocks) d

-- What the checker answers to the three kinds of events.
module _ (blank : String → Bool) where
  pub check-start :
      (l : Ledger) (c : Contract) (block : ContentBlock)
      → allowed (type_of block) ≡ true
      → storage blank block ≡ storage_of (type_of block)
      → IsTracked l c
      → check_event blank c (content_block_start (at l.blocks.next_index) block)
        ≡ some (opened_by c l.blocks.next_index (storage_of (type_of block)))
  unfolding check_event
  check-start l c block a e v =
      let n = l.blocks.next_index in ground (arith, a, e, v.within n, v.bounded n)

  pub check-stop :
      (c : Contract) (i : BlockIndex)
      → has i c.open_blocks ≡ true
      → check_event blank c (content_block_stop i) ≡ some (closed_by c i)
  unfolding check_event
  check-stop c i h = rw h

  pub check-delta :
      (c : Contract) (i : BlockIndex) (kind : Storage) (d : Delta)
      → lookup i c.open_blocks ≡ some kind
      → accepts kind d ≡ true
      → check_event blank c (content_block_delta i d) ≡ some c
  unfolding check_event
  check-delta c i kind d h a = ground (arith, h, a)
