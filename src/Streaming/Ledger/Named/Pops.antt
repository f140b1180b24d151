-- ===== src/Streaming/Ledger/Named/Pops.antt =====
-- The names of the blocks when the tools are closed one after the other.
use luicode.Base.{
  ℕ, nat_eq, nat_beq_iff, Bool, true, false, ◌∷◌, if◌then◌else◌, ◌≡◌, ◌≢◌, ◌⊎◌, inl, inr, sym,
  subst, arith, Bool-cases, some,
}
use luicode.Base.Dict.{Dict, lookup, erase, lookup-erase, contains-keys}
use luicode.Streaming.Events.{BlockIndex}
use luicode.Streaming.Blocks.{StreamBlockLedger, ToolBlockState}
use luicode.Streaming.Contract.{Storage, index_eq, same_index_iff}
use luicode.Streaming.Ledger.Named.{Owner, IsNamed}

pub first_stored :
    (k : ℕ) (s : ToolBlockState) (rest : Dict ℕ ToolBlockState) → lookup k ((k, s) ∷ rest) ≡ some s
unfolding lookup
first_stored k s rest = ground (arith, nat_beq_iff k k)

module _ (b : StreamBlockLedger) (k : ℕ) (s : ToolBlockState) (rest : Dict ℕ ToolBlockState)
    (d : Dict BlockIndex Storage) (v : IsNamed (record b { tool_states = (k, s) ∷ rest }) d)
    (no_text : b.text_started ≡ false) (no_thinking : b.thinking_started ≡ false) where
  in_rest :
      (j : ℕ) (t : ToolBlockState) → lookup j rest ≡ some t → lookup j ((k, s) ∷ rest) ≡ some t
  unfolding lookup
  in_rest j t e = ground (arith, e, v.unique.0, contains-keys k rest, nat_beq_iff k j)

  not_first : (j : ℕ) (t : ToolBlockState) → lookup j rest ≡ some t → k ≢ j
  not_first j t e q =
      ground
        (arith, subst (λ i. lookup i rest ≡ some t) (sym q) e, v.unique.0, contains-keys k rest)

  rest-Owner :
      (i : BlockIndex)
      → (s.started ≡ false) ⊎ (s.block_index ≢ i)
      → Owner ((k, s) ∷ rest) i
      → Owner rest i
  unfolding lookup
  rest-Owner i other o = record {
    tool = o.tool;
    state = o.state;
    stored = ground (arith, o.stored, o.started, o.owns, other, nat_beq_iff k o.tool);
    started = o.started;
    owns = o.owns;
  }

  pop_idle : s.started ≡ false → IsNamed (record b { tool_states = rest }) d
  pop_idle off = record {
    text = λ h. v.text h;
    thinking = λ h. v.thinking h;
    texts = λ i h. v.texts i h;
    thinkings = λ i h. v.thinkings i h;
    plain = v.plain;
    tools = λ j t e h. v.tools j t (in_rest j t e) h;
    owners = λ i h. rest-Owner i (inl off) (v.owners i h);
    apart = λ j i t u e f g h x. v.apart j i t u (in_rest j t e) (in_rest i u f) g h x;
    unique = v.unique.1;
  }

  pop_started : s.started ≡ true → IsNamed (record b { tool_states = rest }) (erase s.block_index d)
  pop_started on = record {
    text = λ h. ground (arith, h, no_text);
    thinking = λ h. ground (arith, h, no_thinking);
    texts = λ i h. ground (arith, h, v.texts i, no_text, lookup-erase s.block_index i d);
    thinkings =
        λ i h. ground (arith, h, v.thinkings i, no_thinking, lookup-erase s.block_index i d);
    plain = λ i h. ground (arith, h, v.plain i, lookup-erase s.block_index i d);
    tools = λ j t e h. ground (
      arith,
      v.tools j t (in_rest j t e) h,
      v.apart k j s t (first_stored k s rest) (in_rest j t e) on h,
      not_first j t e,
      lookup-erase s.block_index t.block_index d,
      same_index_iff s.block_index t.block_index,
    );
    owners = λ i h.
        rest-Owner i
          (inr (λ q.
            ground (arith, h, q, lookup-erase s.block_index i d, same_index_iff s.block_index i)))
          (v.owners i (ground (arith, h, lookup-erase s.block_index i d)));
    apart = λ j i t u e f g h x. v.apart j i t u (in_rest j t e) (in_rest i u f) g h x;
    unique = v.unique.1;
  }

  -- The first of the tools is left out, and its block is closed if it was started.
  pub pop_tool-IsNamed :
      IsNamed (record b { tool_states = rest }) (if s.started then erase s.block_index d else d)
  pop_tool-IsNamed =
      let left = λ (x : Bool).
        IsNamed (record b { tool_states = rest }) (if x then erase s.block_index d else d) in
      elim (Bool-cases s.started) [
        | inl on ↦ subst left (sym on) (pop_started on)
        | inr off ↦ subst left (sym off) (pop_idle off)
      ]
