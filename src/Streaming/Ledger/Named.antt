-- ===== src/Streaming/Ledger/Named.antt =====
-- The open blocks of the checker against the names that the ledger has for them: the text block, the
-- thinking block, and the blocks of started tools.
pub mod Starts
pub mod Stops
pub mod Pops
use luicode.Base.{
  ℕ, nat_eq, nat_beq_iff, Bool, true, false, ◌∷◌, if◌then◌else◌, ◌≡◌, ◌≢◌, ◌⊎◌, inl, inr, sym, ◌∙◌,
  subst, arith, Bool-cases, Distinct, none, some,
}
use luicode.Base.Dict.{
  Dict, lookup, insert, erase, keys, lookup-insert, lookup-erase, Distinct-keys-insert,
  contains-keys,
}
use luicode.Streaming.Events.{BlockIndex, at}
use luicode.Streaming.Blocks.{StreamBlockLedger, ToolBlockState}
use luicode.Streaming.Contract.{
  Storage, in_text, in_thinking, in_tool, no_delta, index_eq, same_index, same_index_iff,
}

-- A started tool that has the block.
pub record Owner (states : Dict ℕ ToolBlockState) (i : BlockIndex) : Type 0 where
  pub tool : ℕ
  pub state : ToolBlockState
  pub stored : lookup tool states ≡ some state
  pub started : state.started ≡ true
  pub owns : state.block_index ≡ i

pub record IsNamed (b : StreamBlockLedger) (d : Dict BlockIndex Storage) : Type 0 where
  pub text : b.text_started ≡ true → lookup b.text_index d ≡ some in_text
  pub thinking : b.thinking_started ≡ true → lookup b.thinking_index d ≡ some in_thinking
  pub texts :
      (i : BlockIndex) → lookup i d ≡ some in_text → (b.text_started ≡ true) × (b.text_index ≡ i)
  pub thinkings :
      (i : BlockIndex)
      → lookup i d ≡ some in_thinking
      → (b.thinking_started ≡ true) × (b.thinking_index ≡ i)
  pub plain : (i : BlockIndex) → lookup i d ≢ some no_delta
  pub tools :
      (k : ℕ) (s : ToolBlockState)
      → lookup k b.tool_states ≡ some s
      → s.started ≡ true
      → lookup s.block_index d ≡ some in_tool
  pub owners : (i : BlockIndex) → lookup i d ≡ some in_tool → Owner b.tool_states i
  pub apart :
      (j k : ℕ) (s t : ToolBlockState)
      → lookup j b.tool_states ≡ some s
      → lookup k b.tool_states ≡ some t
      → s.started ≡ true
      → t.started ≡ true
      → s.block_index ≡ t.block_index
      → j ≡ k
  pub unique : Distinct (keys b.tool_states)
