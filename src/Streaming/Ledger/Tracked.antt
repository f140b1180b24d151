-- ===== src/Streaming/Ledger/Tracked.antt =====
-- The ledger against the checker of the contract, block by block.
pub mod Steps
pub mod Flags
use luicode.Base.{
  ℕ, ◌+◌, ◌<◌, nat_eq, nat_beq_iff, Bool, true, false, not, ◌&&◌, [], ◌∷◌, ◌++◌, ◌==◌, ◌≡◌, refl,
  ap, sym, subst, ◌∙◌, arith, contains, Distinct, Distinct-without, contains-without, Option, none,
  some, String, is_some,
}
use luicode.Base.Dict.{Dict, lookup, insert, erase, has, lookup-insert, lookup-erase}
use luicode.Streaming.Events.{
  BlockIndex, unset, at, BlockType, text, thinking, tool_use, redacted_thinking, other,
  ContentBlock, text_block, thinking_block, tool_block, redacted_block, other_block, Delta,
  content_block_start, content_block_delta, content_block_stop, type_of,
}
use luicode.Streaming.Blocks.{StreamBlockLedger}
use luicode.Streaming.Ledger.{
  Ledger, StreamBlockState, block_state, delta_block, delta_text, drop_open, stop_block,
  clear_active, delta_at, add_part, close_state, marked_started,
}
use luicode.Streaming.Ledger.Calls.{start_next_block}
use luicode.Streaming.Ledger.Stack.{drop_open-without}
use luicode.Streaming.Contract.{
  Contract, Storage, in_text, in_thinking, in_tool, no_delta, storage_of, storage, allowed, accepts,
  index_eq, same_index, check_event, some_seen,
}

-- The kind of a block, as the checker stores it.
abbrev pub kind_at : Option StreamBlockState → Option Storage
kind_at none = none
kind_at (some s) = some (storage_of s.block_type)

-- A block's state knows its index.
abbrev pub is_indexed : ℕ → Option StreamBlockState → Bool
is_indexed i none = true
is_indexed i (some s) = s.index == i

abbrev pub opens : Contract → ℕ → Bool
opens c i = has (at i) c.open_blocks

abbrev pub some_block : Dict ℕ StreamBlockState → Bool
some_block [] = false
some_block (b ∷ bs) = true

-- The blocks on the stack are those that the checker holds open, each of the type of its state, and
-- the next index is larger than that of any block so far.
pub record IsTracked (l : Ledger) (c : Contract) : Type 0 where
  pub opened : (i : ℕ) → contains i l.open_stack ≡ opens c i
  pub distinct : Distinct l.open_stack
  pub bounded : (i : ℕ) → contains (at i) c.seen_blocks ≡ true → i < l.blocks.next_index
  pub within : (i : ℕ) → opens c i ≡ true → i < l.blocks.next_index
  pub kinds :
      (i : ℕ) → opens c i ≡ true → lookup (at i) c.open_blocks ≡ kind_at (lookup i l.content_blocks)
  pub named : has unset c.open_blocks ≡ false
  pub seen : some_block l.content_blocks ≡ some_seen c.seen_blocks
  pub indexed : (i : ℕ) → is_indexed i (lookup i l.content_blocks) ≡ true

abbrev pub opened_by : Contract → ℕ → Storage → Contract
opened_by c i kind = record {
  open_blocks = insert (at i) kind c.open_blocks;
  seen_blocks = at i ∷ c.seen_blocks;
}

abbrev pub closed_by : Contract → BlockIndex → Contract
closed_by c i = record c { open_blocks = erase i c.open_blocks }

pub some_block-insert :
    (i : ℕ) (s : StreamBlockState) (d : Dict ℕ StreamBlockState) → some_block (insert i s d) ≡ true
unfolding insert
some_block-insert i s [] = refl
some_block-insert i s ((j, t) ∷ d) = ground arith

pub some_block-lookup :
    (i : ℕ) (d : Dict ℕ StreamBlockState) → is_some (lookup i d) ≡ true → some_block d ≡ true
unfolding lookup
some_block-lookup i [] h = h
some_block-lookup i (b ∷ d) h = refl

-- The tracking looks at the blocks' next index only.
pub other_blocks-IsTracked :
    (l : Ledger) (c : Contract) (b : StreamBlockLedger)
    → b.next_index ≡ l.blocks.next_index
    → IsTracked l c
    → IsTracked (record l { blocks = b }) c
other_blocks-IsTracked l c b e v = record {
  opened = v.opened;
  distinct = v.distinct;
  bounded = λ i h. ground (arith, e, v.bounded i h);
  within = λ i h. ground (arith, e, v.within i h);
  kinds = v.kinds;
  named = v.named;
  seen = v.seen;
  indexed = v.indexed;
}
