-- ===== src/Streaming/Ledger/Named/Starts.antt =====
-- The names of the blocks when a block starts.
use luicode.Base.{
  ℕ, nat_eq, nat_beq_iff, true, false, ◌≡◌, ◌⊎◌, inl, inr, ◌∙◌, arith, Bool-cases, none, some,
}
use luicode.Base.Dict.{Dict, lookup, insert, lookup-insert, Distinct-keys-insert}
use luicode.Streaming.Events.{BlockIndex, at}
use luicode.Streaming.Blocks.{StreamBlockLedger, ToolBlockState}
use luicode.Streaming.Contract.{
  Storage, in_text, in_thinking, in_tool, index_eq, same_index, same_index_iff,
}
use luicode.Streaming.Ledger.Named.{Owner, IsNamed}

grown-Owner :
    (states : Dict ℕ ToolBlockState) (k : ℕ) (s : ToolBlockState) (i : BlockIndex)
    → (lookup k states ≡ none)
      ⊎ ((t : ToolBlockState) × (lookup k states ≡ some t) × (t.started ≡ false))
    → Owner states i
    → Owner (insert k s states) i
grown-Owner states k s i idle o = record {
  tool = o.tool;
  state = o.state;
  stored =
      ground
        (arith, o.stored, o.started, idle, lookup-insert k o.tool s states, nat_beq_iff k o.tool);
  started = o.started;
  owns = o.owns;
}

new-Owner :
    (states : Dict ℕ ToolBlockState) (k : ℕ) (s : ToolBlockState) (i : BlockIndex)
    → s.started ≡ true
    → s.block_index ≡ i
    → Owner (insert k s states) i
new-Owner states k s i on own = record {
  tool = k;
  state = s;
  stored = ground (arith, lookup-insert k k s states, nat_beq_iff k k);
  started = on;
  owns = own;
}

module _ (b : StreamBlockLedger) (d : Dict BlockIndex Storage) (v : IsNamed b d) where
  -- A text block starts under an index that is free, and no other one is open.
  pub start_text-IsNamed :
      (n : BlockIndex) (next : ℕ)
      → lookup n d ≡ none
      → b.text_started ≡ false
      → IsNamed
          (record b { next_index = next; text_index = n; text_started = true })
          (insert n in_text d)
  start_text-IsNamed n next free off = record {
    text = λ h. ground (arith, lookup-insert n n in_text d, same_index_iff n n);
    thinking = λ h. ground (
      arith,
      v.thinking h,
      free,
      lookup-insert n b.thinking_index in_text d,
      same_index_iff n b.thinking_index,
    );
    texts =
        λ i h. ground (arith, h, off, v.texts i, lookup-insert n i in_text d, same_index_iff n i);
    thinkings = λ i h. ground (arith, h, v.thinkings i, lookup-insert n i in_text d);
    plain = λ i h. ground (arith, h, v.plain i, lookup-insert n i in_text d);
    tools = λ k s e h. ground (
      arith,
      v.tools k s e h,
      free,
      lookup-insert n s.block_index in_text d,
      same_index_iff n s.block_index,
    );
    owners = λ i h. v.owners i (ground (arith, h, lookup-insert n i in_text d));
    apart = v.apart;
    unique = v.unique;
  }

  pub start_thinking-IsNamed :
      (n : BlockIndex) (next : ℕ)
      → lookup n d ≡ none
      → b.thinking_started ≡ false
      → IsNamed
          (record b { next_index = next; thinking_index = n; thinking_started = true })
          (insert n in_thinking d)
  start_thinking-IsNamed n next free off = record {
    text = λ h. ground (
      arith,
      v.text h,
      free,
      lookup-insert n b.text_index in_thinking d,
      same_index_iff n b.text_index,
    );
    thinking = λ h. ground (arith, lookup-insert n n in_thinking d, same_index_iff n n);
    texts = λ i h. ground (arith, h, v.texts i, lookup-insert n i in_thinking d);
    thinkings = λ i h.
        ground (arith, h, off, v.thinkings i, lookup-insert n i in_thinking d, same_index_iff n i);
    plain = λ i h. ground (arith, h, v.plain i, lookup-insert n i in_thinking d);
    tools = λ k s e h. ground (
      arith,
      v.tools k s e h,
      free,
      lookup-insert n s.block_index in_thinking d,
      same_index_iff n s.block_index,
    );
    owners = λ i h. v.owners i (ground (arith, h, lookup-insert n i in_thinking d));
    apart = v.apart;
    unique = v.unique;
  }

  -- A tool that is not started gets a block of its own.
  pub start_tool-IsNamed :
      (n : ℕ) (next k : ℕ) (s : ToolBlockState)
      → lookup (at n) d ≡ none
      → s.started ≡ true
      → s.block_index ≡ at n
      → (lookup k b.tool_states ≡ none)
        ⊎ ((t : ToolBlockState) × (lookup k b.tool_states ≡ some t) × (t.started ≡ false))
      → IsNamed
          (record b { next_index = next; tool_states = insert k s b.tool_states })
          (insert (at n) in_tool d)
  start_tool-IsNamed n next k s free on own idle = record {
    text = λ h. ground (
      arith,
      v.text h,
      free,
      lookup-insert (at n) b.text_index in_tool d,
      same_index_iff (at n) b.text_index,
    );
    thinking = λ h. ground (
      arith,
      v.thinking h,
      free,
      lookup-insert (at n) b.thinking_index in_tool d,
      same_index_iff (at n) b.thinking_index,
    );
    texts = λ i h. ground (arith, h, v.texts i, lookup-insert (at n) i in_tool d);
    thinkings = λ i h. ground (arith, h, v.thinkings i, lookup-insert (at n) i in_tool d);
    plain = λ i h. ground (arith, h, v.plain i, lookup-insert (at n) i in_tool d);
    tools = λ j t e h. ground (
      arith,
      e,
      h,
      own,
      v.tools j t,
      free,
      lookup-insert k j s b.tool_states,
      lookup-insert (at n) t.block_index in_tool d,
      same_index_iff (at n) t.block_index,
    );
    owners = λ i h. elim (Bool-cases (same_index (at n) i)) [
      | inl same ↦ new-Owner b.tool_states k s i on (own ∙ (same_index_iff (at n) i).0 same)
      | inr other ↦
          grown-Owner b.tool_states k s i idle
            (v.owners i (ground (arith, h, other, lookup-insert (at n) i in_tool d)))
    ];
    apart = λ j i t u e f g h x. ground (
      arith,
      e,
      f,
      g,
      h,
      x,
      own,
      free,
      v.apart j i t u,
      v.tools j t,
      v.tools i u,
      lookup-insert k j s b.tool_states,
      lookup-insert k i s b.tool_states,
      nat_beq_iff k j,
      nat_beq_iff k i,
    );
    unique = Distinct-keys-insert k s b.tool_states v.unique;
  }
