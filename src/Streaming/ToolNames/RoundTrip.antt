-- ===== src/Streaming/ToolNames/RoundTrip.antt =====
-- A tool's name that is encoded for the upstream comes back as it was.
use luicode.Base.{
  string_eq, nat_eq, str_eq_iff, ℕ, suc, ◌+◌, ◌≤◌, Bool, true, false, not, String, Option, none,
  some, List, [], ◌∷◌, ◌≡◌, refl, ap, sym, ◌∙◌, arith, contains, length, truthy, Bool-cases,
  Option-cases, inl, inr, ◌⊎◌,
}
use luicode.Base.Dict.{lookup, has, lookup-insert}
use luicode.Streaming.ToolNames.{
  OpenAiToolNameCodec, encode, decode, add_aliases, from_names, unique_names, selected, with_alias,
  codec_of, after_alias,
}
use luicode.Streaming.ToolNames.Aliases.{Apart, unique_alias-free}

-- The two dictionaries of a codec against the reserved names, of which `r0` were reserved first.
record IsPaired (c : OpenAiToolNameCodec) (r r0 : List String) : Type 0 where
  paired :
      (n a : String) → lookup n c.original_to_alias ≡ some a → lookup a c.alias_to_original ≡ some n
  reserved : (a : String) → has a c.alias_to_original ≡ true → contains a r ≡ true
  apart : (a : String) → has a c.alias_to_original ≡ true → contains a r0 ≡ false
  older : (a : String) → contains a r0 ≡ true → contains a r ≡ true

decode-encode_alias :
    (c : OpenAiToolNameCodec) (n a : String)
    → lookup n c.original_to_alias ≡ some a
    → lookup a c.alias_to_original ≡ some n
    → decode c (encode c n) ≡ n
unfolding decode encode
decode-encode_alias c n a h k = rw (h, k)

decode-encode_same :
    (c : OpenAiToolNameCodec) (n : String)
    → lookup n c.original_to_alias ≡ none
    → lookup n c.alias_to_original ≡ none
    → decode c (encode c n) ≡ n
unfolding decode encode
decode-encode_same c n h k = rw (h, k)

first_in : (n : String) (ns : List String) → contains n (n ∷ ns) ≡ true
unfolding contains
first_in n ns = ground (arith, str_eq_iff n n)

later_in : (x n : String) (ns : List String) → contains x ns ≡ true → contains x (n ∷ ns) ≡ true
unfolding contains
later_in x n ns h = ground (arith, h)

module _ (portable : String → Bool) (sorted : List String → List String)
    (substituted stripped rstripped cut digest : String → String)
    (numbered : String → ℕ → String) where
  abbrev added : String → String → OpenAiToolNameCodec → OpenAiToolNameCodec
  added = with_alias portable sorted substituted stripped rstripped cut digest numbered

  abbrev add_all : List String → List String → OpenAiToolNameCodec → Option OpenAiToolNameCodec
  add_all = add_aliases portable sorted substituted stripped rstripped cut digest numbered

  abbrev codec : List String → Option OpenAiToolNameCodec
  codec = from_names portable sorted substituted stripped rstripped cut digest numbered

  abbrev AreApart : String → ℕ → Type 0
  AreApart name n =
      Apart portable sorted substituted stripped rstripped cut digest numbered name 0 n

  added-IsPaired :
      (c : OpenAiToolNameCodec) (r r0 : List String) (n a : String)
      → contains a r ≡ false
      → IsPaired c r r0
      → IsPaired (added n a c) (a ∷ r) r0
  unfolding contains
  added-IsPaired c r r0 n a free v = record {
    paired = λ m b e. ground (
      arith,
      e,
      free,
      v.paired m b,
      v.reserved b,
      lookup-insert n m a c.original_to_alias,
      lookup-insert a b n c.alias_to_original,
      str_eq_iff a b,
      str_eq_iff n m,
    );
    reserved = λ b h. ground (
      arith,
      h,
      v.reserved b,
      lookup-insert a b n c.alias_to_original,
      str_eq_iff b a,
      str_eq_iff a b,
    );
    apart = λ b h. ground (
      arith,
      h,
      v.apart b,
      v.older b,
      free,
      lookup-insert a b n c.alias_to_original,
      str_eq_iff a b,
    );
    older = λ b h. ground (arith, v.older b h);
  }

  -- What the loop makes of a codec: every name has an alias, and those of before have one still.
  record Added (ns : List String) (c c' : OpenAiToolNameCodec) (r0 : List String) : Type 0 where
    names : (n : String) → contains n ns ≡ true → has n c'.original_to_alias ≡ true
    kept : (n : String) → has n c.original_to_alias ≡ true → has n c'.original_to_alias ≡ true
    last : List String
    paired : IsPaired c' last r0

  add_all-Added :
      (ns r r0 : List String) (c : OpenAiToolNameCodec)
      → IsPaired c r r0
      → ((name : String) → contains name ns ≡ true → AreApart name (suc (length ns + length r)))
      → (c' : OpenAiToolNameCodec) × (add_all ns r c ≡ some c') × Added ns c c' r0
  unfolding add_aliases contains
  add_all-Added [] r r0 c v h =
      (c, refl, record { names = λ n e. ground (arith, e); kept = λ n e. e; last = r; paired = v })
  add_all-Added (n ∷ ns) r r0 c v h =
      let (a, found, free) =
        unique_alias-free portable sorted substituted stripped rstripped cut digest numbered n r
          (λ i j x y z w q. h n (first_in n ns) i j x (omega (arith, y)) z (omega (arith, w)) q) in
      let (c', e, u) =
        add_all-Added ns (a ∷ r) r0 (added n a c) (added-IsPaired c r r0 n a free v)
          (λ name k i j x y z w q.
            h name (later_in name n ns k) i j x (omega (arith, y)) z (omega (arith, w)) q) in
      (
        c',
        ap
              (λ o.
                after_alias portable sorted substituted stripped rstripped cut digest numbered o
                  (λ x. add_all ns (x ∷ r) (added n x c)))
              found
            ∙ e,
        record {
          names = λ m k. ground (
            arith,
            k,
            u.names m,
            u.kept m,
            lookup-insert n m a c.original_to_alias,
            str_eq_iff n m,
            str_eq_iff m n,
          );
          kept = λ m k. u.kept m (ground (arith, k, lookup-insert n m a c.original_to_alias));
          last = u.last;
          paired = u.paired;
        },
      )

  abbrev unique : List String → List String
  unique = unique_names portable sorted substituted stripped rstripped cut digest numbered

  abbrev chosen : (String → Bool) → List String → List String
  chosen = selected portable sorted substituted stripped rstripped cut digest numbered

  abbrev not_portable : String → Bool
  not_portable n = not (portable n)

  length-unique : (ns : List String) → length (unique ns) ≤ length ns
  length-unique [] = ground arith
  length-unique (n ∷ ns) = ground (arith, length-unique ns)

  length-chosen :
      (ns : List String) → length (chosen not_portable ns) + length (chosen portable ns) ≡ length ns
  length-chosen [] = refl
  length-chosen (n ∷ ns) = ground (arith, length-chosen ns)

  contains-unique :
      (n : String) (ns : List String)
      → truthy n ≡ true
      → contains n ns ≡ true
      → contains n (unique ns) ≡ true
  unfolding contains
  contains-unique n [] t h = h
  contains-unique n (m ∷ ns) t h =
      ground (arith, t, h, contains-unique n ns t, str_eq_iff n m, str_eq_iff m n)

  contains-chosen :
      (p : String → Bool) (n : String) (ns : List String)
      → p n ≡ true
      → contains n ns ≡ true
      → contains n (chosen p ns) ≡ true
  unfolding contains
  contains-chosen p n [] t h = h
  contains-chosen p n (m ∷ ns) t h = ground (arith, t, h, contains-chosen p n ns t, str_eq_iff n m)

  contains-unique_back :
      (n : String) (ns : List String)
      → contains n (unique ns) ≡ true
      → (contains n ns ≡ true) × (truthy n ≡ true)
  unfolding contains
  contains-unique_back n [] h = ground (arith, h)
  contains-unique_back n (m ∷ ns) h =
      ground (arith, h, contains-unique_back n ns, str_eq_iff n m, str_eq_iff m n)

  contains-chosen_back :
      (p : String → Bool) (n : String) (ns : List String)
      → contains n (chosen p ns) ≡ true
      → (p n ≡ true) × (contains n ns ≡ true)
  unfolding contains
  contains-chosen_back p n [] h = ground (arith, h)
  contains-chosen_back p n (m ∷ ns) h =
      ground (arith, h, contains-chosen_back p n ns, str_eq_iff n m, str_eq_iff m n)

  new-IsPaired :
      (r : List String) (c : OpenAiToolNameCodec)
      → c.original_to_alias ≡ []
      → c.alias_to_original ≡ []
      → IsPaired c r r
  unfolding lookup
  new-IsPaired r c h k = record {
    paired = λ n a e. ground (arith, h, e);
    reserved = λ a e. ground (arith, k, e);
    apart = λ a e. ground (arith, k, e);
    older = λ a e. e;
  }

  decode-encode :
      (c : OpenAiToolNameCodec) (n : String) (r r0 : List String)
      → IsPaired c r r0
      → ((has n c.original_to_alias ≡ true) ⊎ (contains n r0 ≡ true))
      → decode c (encode c n) ≡ n
  decode-encode c n r r0 v known = elim (Option-cases (lookup n c.original_to_alias)) [
    | inr (a, e) ↦ decode-encode_alias c n a e (v.paired n a e)
    | inl e ↦
        decode-encode_same c n e
          (unnamed c n r0 known e (Option-cases (lookup n c.alias_to_original)) (v.apart n))
  ]
    where
      unnamed :
          (c : OpenAiToolNameCodec) (n : String) (r0 : List String)
          → ((has n c.original_to_alias ≡ true) ⊎ (contains n r0 ≡ true))
          → lookup n c.original_to_alias ≡ none
          → (lookup n c.alias_to_original ≡ none)
            ⊎ ((a : String) × (lookup n c.alias_to_original ≡ some a))
          → (has n c.alias_to_original ≡ true → contains n r0 ≡ false)
          → lookup n c.alias_to_original ≡ none
      unnamed c n r0 known e o apart = ground (arith, known, e, o, apart)

  -- A codec is built for any list of names, and each name of it that is not empty comes back from its
  -- encoding. `sorted` keeps the number and the set of the names that it is given, and of each name of
  -- the list that is neither empty nor portable the first attempts at an alias, one for each name of
  -- the list and one more, make different ones.
  pub from_names-decode-encode :
      ((xs : List String) → length (sorted xs) ≡ length xs)
      → ((x : String) (xs : List String) → contains x (sorted xs) ≡ contains x xs)
      → (names : List String)
      → ((name : String)
          → contains name names ≡ true
          → truthy name ≡ true
          → portable name ≡ false
          → AreApart name (suc (length names)))
      → (c : OpenAiToolNameCodec) × (codec names ≡ some c)
        × ((n : String) → contains n names ≡ true → truthy n ≡ true → decode c (encode c n) ≡ n)
  unfolding from_names
  from_names-decode-encode as_many same names apart =
      let u = unique names in
      let p = chosen portable u in
      let q = chosen not_portable u in
      let c0 = codec_of portable sorted substituted stripped rstripped cut digest numbered p in
      let (c, e, a) =
        add_all-Added (sorted q) p p c0 (new-IsPaired p c0 refl refl) (λ name k i j x y z w.
          let (other, in_u) = contains-chosen_back not_portable name u (sym (same name q) ∙ k) in
          let (in_names, nonempty) = contains-unique_back name names in_u in
          apart name in_names nonempty (ground (arith, other)) i j x
            (omega (arith, y, as_many q, length-chosen u, length-unique names)) z
            (omega (arith, w, as_many q, length-chosen u, length-unique names))) in
      (
        c,
        e,
        λ n k t. decode-encode c n a.last p a.paired (elim (Bool-cases (portable n)) [
          | inl yes_portable ↦
              inr (contains-chosen portable n u yes_portable (contains-unique n names t k))
          | inr other_name ↦ inl (
              a.names n (
                same n q
                ∙ contains-chosen not_portable n u (ap not other_name)
                    (contains-unique n names t k)))
        ]),
      )
