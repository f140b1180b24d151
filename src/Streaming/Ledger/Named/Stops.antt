-- ===== src/Streaming/Ledger/Named/Stops.antt =====
-- The names of the blocks when a block stops.
use luicode.Base.{ℕ, nat_eq, nat_beq_iff, true, false, ◌≡◌, ◌≢◌, sym, ◌∙◌, arith, none, some}
use luicode.Base.Dict.{
  Dict, lookup, insert, erase, lookup-insert, lookup-erase, Distinct-keys-insert,
}
use luicode.Streaming.Events.{BlockIndex}
use luicode.Streaming.Blocks.{StreamBlockLedger, ToolBlockState}
use luicode.Streaming.Contract.{Storage, no_delta, index_eq, same_index_iff}
use luicode.Streaming.Ledger.Named.{Owner, IsNamed}

same_lookup :
    (d : Dict BlockIndex Storage) (n i : BlockIndex)
    → lookup n d ≡ none
    → lookup i (erase n (insert n no_delta d)) ≡ lookup i d
same_lookup d n i free = ground (
  arith,
  free,
  lookup-erase n i (insert n no_delta d),
  lookup-insert n i no_delta d,
  same_index_iff n i,
)

module _ (b : StreamBlockLedger) (d : Dict BlockIndex Storage) (v : IsNamed b d) where
  -- The open text block is closed.
  pub stop_text-IsNamed :
      b.text_started ≡ true → IsNamed (record b { text_started = false }) (erase b.text_index d)
  stop_text-IsNamed on = record {
    text = λ h. ground (arith, h);
    thinking = λ h. ground (
      arith,
      v.thinking h,
      v.text on,
      lookup-erase b.text_index b.thinking_index d,
      same_index_iff b.text_index b.thinking_index,
    );
    texts = λ i h.
        ground (arith, h, v.texts i, lookup-erase b.text_index i d, same_index_iff b.text_index i);
    thinkings = λ i h. ground (arith, h, v.thinkings i, lookup-erase b.text_index i d);
    plain = λ i h. ground (arith, h, v.plain i, lookup-erase b.text_index i d);
    tools = λ k s e h. ground (
      arith,
      v.tools k s e h,
      v.text on,
      lookup-erase b.text_index s.block_index d,
      same_index_iff b.text_index s.block_index,
    );
    owners = λ i h. v.owners i (ground (arith, h, lookup-erase b.text_index i d));
    apart = v.apart;
    unique = v.unique;
  }

  pub stop_thinking-IsNamed :
      b.thinking_started ≡ true
      → IsNamed (record b { thinking_started = false }) (erase b.thinking_index d)
  stop_thinking-IsNamed on = record {
    text = λ h. ground (
      arith,
      v.text h,
      v.thinking on,
      lookup-erase b.thinking_index b.text_index d,
      same_index_iff b.thinking_index b.text_index,
    );
    thinking = λ h. ground (arith, h);
    texts = λ i h. ground (arith, h, v.texts i, lookup-erase b.thinking_index i d);
    thinkings = λ i h. ground (
      arith,
      h,
      v.thinkings i,
      lookup-erase b.thinking_index i d,
      same_index_iff b.thinking_index i,
    );
    plain = λ i h. ground (arith, h, v.plain i, lookup-erase b.thinking_index i d);
    tools = λ k s e h. ground (
      arith,
      v.tools k s e h,
      v.thinking on,
      lookup-erase b.thinking_index s.block_index d,
      same_index_iff b.thinking_index s.block_index,
    );
    owners = λ i h. v.owners i (ground (arith, h, lookup-erase b.thinking_index i d));
    apart = v.apart;
    unique = v.unique;
  }

  left-Owner :
      (k : ℕ) (s t : ToolBlockState) (i : BlockIndex)
      → lookup k b.tool_states ≡ some s
      → t.started ≡ false
      → s.block_index ≢ i
      → Owner b.tool_states i
      → Owner (insert k t b.tool_states) i
  left-Owner k s t i e off other o = record {
    tool = o.tool;
    state = o.state;
    stored = ground (
      arith,
      e,
      o.stored,
      o.owns,
      other,
      lookup-insert k o.tool t b.tool_states,
      nat_beq_iff k o.tool,
    );
    started = o.started;
    owns = o.owns;
  }

  -- The block of a started tool is closed and the tool is not started any more.
  pub stop_tool-IsNamed :
      (k : ℕ) (s t : ToolBlockState)
      → lookup k b.tool_states ≡ some s
      → s.started ≡ true
      → t.started ≡ false
      → IsNamed (record b { tool_states = insert k t b.tool_states }) (erase s.block_index d)
  stop_tool-IsNamed k s t e on off =
      let mine = v.tools k s e on in
      record {
        text = λ h. ground (
          arith,
          v.text h,
          mine,
          lookup-erase s.block_index b.text_index d,
          same_index_iff s.block_index b.text_index,
        );
        thinking = λ h. ground (
          arith,
          v.thinking h,
          mine,
          lookup-erase s.block_index b.thinking_index d,
          same_index_iff s.block_index b.thinking_index,
        );
        texts = λ i h. ground (arith, h, v.texts i, lookup-erase s.block_index i d);
        thinkings = λ i h. ground (arith, h, v.thinkings i, lookup-erase s.block_index i d);
        plain = λ i h. ground (arith, h, v.plain i, lookup-erase s.block_index i d);
        tools = λ j u f h. ground (
          arith,
          f,
          h,
          off,
          v.tools j u,
          v.apart j k u s,
          e,
          on,
          lookup-insert k j t b.tool_states,
          nat_beq_iff k j,
          lookup-erase s.block_index u.block_index d,
          same_index_iff s.block_index u.block_index,
        );
        owners = λ i h.
            left-Owner k s t i e off
              (λ q.
                ground
                  (arith, h, q, lookup-erase s.block_index i d, same_index_iff s.block_index i))
              (v.owners i (ground (arith, h, lookup-erase s.block_index i d)));
        apart = λ j i u w f g h x q. ground (
          arith,
          f,
          g,
          h,
          x,
          q,
          off,
          v.apart j i u w,
          lookup-insert k j t b.tool_states,
          lookup-insert k i t b.tool_states,
        );
        unique = Distinct-keys-insert k t b.tool_states v.unique;
      }

  -- A block that starts and stops at once under an index that is free.
  pub pass_through-IsNamed :
      (n : BlockIndex) (next : ℕ)
      → lookup n d ≡ none
      → IsNamed (record b { next_index = next }) (erase n (insert n no_delta d))
  pass_through-IsNamed n next free =
      let same = λ (i : BlockIndex). same_lookup d n i free in
      record {
        text = λ h. same b.text_index ∙ v.text h;
        thinking = λ h. same b.thinking_index ∙ v.thinking h;
        texts = λ i h. v.texts i (sym (same i) ∙ h);
        thinkings = λ i h. v.thinkings i (sym (same i) ∙ h);
        plain = λ i h. v.plain i (sym (same i) ∙ h);
        tools = λ k s e h. same s.block_index ∙ v.tools k s e h;
        owners = λ i h. v.owners i (sym (same i) ∙ h);
        apart = v.apart;
        unique = v.unique;
      }
